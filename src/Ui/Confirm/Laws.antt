-- ===== src/Ui/Confirm/Laws.antt =====
-- ui/ui.go: the dialog as a system, with the rows for which a stop was requested.
use le_cli.Prelude.{true, false, Option, none, some, List, [], ◌∷◌, Bytes, ◌≡◌, arith, ◌⊎◌, subst}
use le_cli.Ui.Row.{Row, actionable}
use le_cli.Ui.Confirm.{Dialog, request_stop, confirm_key}

-- The dialog, the selected row, the row of the open action menu, and the rows for which a stop was
-- ever requested.
pub record System (F : Type 0) : Type 0 where
  pub dialog : Dialog F
  pub selected : Option (Row F)
  pub menu : Option (Row F)
  pub asked : List (Row F)

-- A change of the list or of the cursor, at any time; a click that opens the menu on the selected
-- row;
-- a request to stop the selected row, or the menu's, while no dialog is open; a key, while one is.
pub data Step {F : Type 0} : System F → System F → Type 0 where
  changes : {s : System F} (selected : Option (Row F)) → Step s (record s { selected = selected })
  requests :
      {s : System F} (r : Row F)
      → s.dialog.confirm ≡ false
      → s.selected ≡ some r
      → Step s (record s { dialog = request_stop r s.dialog; asked = r ∷ s.asked })
  opens_menu :
      {s : System F} (r : Row F)
      → s.dialog.confirm ≡ false
      → s.selected ≡ some r
      → Step s (record s { menu = some r })
  menu_requests :
      {s : System F} (r : Row F)
      → s.dialog.confirm ≡ false
      → s.menu ≡ some r
      → Step s (record s { dialog = request_stop r s.dialog; menu = none; asked = r ∷ s.asked })
  key :
      {s : System F} (k : Bytes)
      → s.dialog.confirm ≡ true
      → Step s (record s { dialog = (confirm_key k s.dialog).0 })

pub data Reach {F : Type 0} (s : System F) : System F → Type 0 where
  here : Reach s s
  next : {t u : System F} → Reach s t → Step t u → Reach s u

-- The row is among these.
abbrev pub Among : {F : Type 0} → Row F → List (Row F) → Type 0
Among r [] = ⊥
Among r (q ∷ qs) = (r ≡ q) ⊎ Among r qs

-- An open dialog is about a row that was asked for, and that may be stopped.
abbrev IsPinned : {F : Type 0} → System F → Type 0
IsPinned s =
    s.dialog.confirm ≡ true
    → Among s.dialog.confirmed s.asked × (actionable s.dialog.confirmed ≡ true)

Step-IsPinned : {F : Type 0} {s t : System F} → Step s t → IsPinned s → IsPinned t
unfolding request_stop confirm_key actionable
Step-IsPinned (changes selected) h = h
Step-IsPinned (requests r closed e) h = λ shown. ground arith
Step-IsPinned (opens_menu r closed e) h = h
Step-IsPinned (menu_requests r closed e) h = λ shown. ground arith
Step-IsPinned (key k shown) h = λ still. ground (arith, h shown)

-- What the program starts with: no dialog, and nothing asked for.
abbrev pub start : {F : Type 0} → Row F → System F
start zero_row = record {
  dialog = record { confirm = false; confirmed = zero_row; refusal = none };
  selected = none;
  menu = none;
  asked = [];
}

Reach-IsPinned :
    {F : Type 0} {zero_row : Row F} {s : System F} → Reach (start zero_row) s → IsPinned s
Reach-IsPinned here = λ h. ground arith
Reach-IsPinned (next r step) = Step-IsPinned step (Reach-IsPinned r)

-- However the list changes under the dialog, a key that stops a process stops one for which a stop
-- was requested, while it was selected or from the menu opened on it, and which is no Docker helper
-- and not to be avoided; and the key closes the dialog.
pub confirm_key-asked :
    {F : Type 0} {zero_row : Row F} {s : System F} (k : Bytes) (r : Row F)
    → Reach (start zero_row) s
    → s.dialog.confirm ≡ true
    → (confirm_key k s.dialog).1 ≡ some r
    → Among r s.asked × (actionable r ≡ true) × ((confirm_key k s.dialog).0.confirm ≡ false)
unfolding confirm_key
confirm_key-asked {s = s} k r reach shown h =
    let (among, can) = Reach-IsPinned reach shown in
    let same : s.dialog.confirmed ≡ r = ground arith in
    (
      subst (λ x. Among x s.asked) same among,
      subst (λ x. actionable x ≡ true) same can,
      ground arith,
    )
