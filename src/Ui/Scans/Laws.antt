-- ===== src/Ui/Scans/Laws.antt =====
-- ui/ui.go: the scans as a system, with the commands that run and the events that the loop
-- delivers.
use le_cli.Prelude.{
  ℕ, Bool, true, false, ◌||◌, List, [], ◌∷◌, Option, none, some, ◌==◌, ◌≡◌, refl, arith,
  if◌then◌else◌,
}
use le_cli.Ui.Scans.{Scans, initial, request_scan, scanned, toggle_pause}

-- The interface's state, and the ids of the scan commands that have not answered yet.
pub record System : Type 0 where
  pub ui : Scans
  pub running : List ℕ

abbrev pub start : Option ℕ → List ℕ → List ℕ
start none running = running
start (some id) running = id ∷ running

abbrev pub drop_id : ℕ → List ℕ → List ℕ
drop_id id [] = []
drop_id id (j ∷ js) = let rest = drop_id id js in if j == id then js else j ∷ rest

abbrev pub running? : ℕ → List ℕ → Bool
running? id [] = false
running? id (j ∷ js) = j == id || running? id js

-- A request by a tick, a stop or the start of the program; a refresh; a pause or a resume; and the
-- answer of a running command, which may fail.
pub data Step : System → System → Type 0 where
  tick :
      {s : System}
      → Step s (record {
        ui = (request_scan s.ui false).0;
        running = start (request_scan s.ui false).1 s.running;
      })
  refresh :
      {s : System}
      → Step s (record {
        ui = (request_scan s.ui true).0;
        running = start (request_scan s.ui true).1 s.running;
      })
  pause :
      {s : System}
      → Step s
          (record { ui = (toggle_pause s.ui).0; running = start (toggle_pause s.ui).1 s.running })
  answer :
      {s : System} (id at : ℕ) (error : Bool)
      → running? id s.running ≡ true
      → Step s (record {
        ui = (scanned s.ui id at error).0;
        running = start (scanned s.ui id at error).2 (drop_id id s.running);
      })

pub data Reach (s : System) : System → Type 0 where
  here : Reach s s
  next : {t u : System} → Reach s t → Step t u → Reach s u

abbrev pub boot : System
boot = record { ui = initial; running = [] }

-- The only command that runs is the active one, a request waits only behind it, and what waits
-- while the list is paused was asked for by hand.
pub record IsCoherent (s : System) : Type 0 where
  pub one_runs : s.running ≡ (if s.ui.in_flight then s.ui.active_id ∷ [] else [])
  pub waits : s.ui.pending ≡ true → s.ui.in_flight ≡ true
  pub by_hand : s.ui.pending_manual ≡ true → s.ui.pending ≡ true
  pub paused_wait : s.ui.paused ≡ true → s.ui.pending ≡ true → s.ui.pending_manual ≡ true

Step-IsCoherent : {s t : System} → Step s t → IsCoherent s → IsCoherent t
unfolding request_scan scanned toggle_pause
Step-IsCoherent tick h = ground arith
Step-IsCoherent refresh h = ground arith
Step-IsCoherent pause h = ground arith
Step-IsCoherent (answer id at error r) h = ground arith

-- However the ticks, the refreshes, the pauses and the answers follow one another from the start of
-- the program, at most one scan runs, it is the active one, a request waits only behind it, and
-- what waits while the list is paused was asked for by hand.
pub Reach-IsCoherent : {s : System} → Reach boot s → IsCoherent s
Reach-IsCoherent here = record {
  one_runs = refl;
  waits = λ e. ground arith;
  by_hand = λ e. ground arith;
  paused_wait = λ e. ground arith;
}
Reach-IsCoherent (next r step) = Step-IsCoherent step (Reach-IsCoherent r)

-- From a state that the program can reach, the answer of the active scan is never ignored: a
-- waiting request starts the next scan, which is then the active one, and without one no scan runs;
-- no request waits any more.
pub answer_serves :
    {s : System} (at : ℕ) (error : Bool)
    → Reach boot s
    → s.ui.in_flight ≡ true
    → let after = scanned s.ui s.ui.active_id at error in
      (after.0.in_flight ≡ s.ui.pending)
      × (after.0.pending ≡ false)
      × (after.2 ≡ (if s.ui.pending then some after.0.active_id else none))
unfolding request_scan scanned
answer_serves {s = s} at error r running =
    let h = Reach-IsCoherent r in ground (arith, h.paused_wait)
