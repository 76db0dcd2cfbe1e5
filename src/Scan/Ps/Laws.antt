-- ===== src/Scan/Ps/Laws.antt =====
-- scan/scan_unix.go: lemmas on the rows that ps's three outputs make, about command lines and
-- start times.
use le_cli.Prelude.{
  differ, Bytes, codes, true, false, is_empty, take, drop, join, split, List, [], ◌∷◌, none, some,
  ◌≡◌, refl, arith, All, Option-cases, if◌then◌else◌, inl, inr,
}
use le_cli.Prelude.Int.{ℤ, eqb_ℤ_iff}
use le_cli.Prelude.Maps.{Map, int_eq, lookup, insert, elem, lookup-insert}
use le_cli.Prelude.Space.{fields, IsWord, fields-IsWord}
use le_cli.Scan.Ps.{
  PsRow, read_pid, pid_fields, row_of, user_line, command_line, resource_values, resource_line,
  user_lines, command_lines, resource_lines, drop_partial_rows, read_ps, command_values,
}

-- Five fields joined are not empty.
joined_full :
    (w : Bytes) (ws : List Bytes) → IsWord w → is_empty (join (codes " ") (take 5 (w ∷ ws))) ≡ false
unfolding join
joined_full [] ws (ne, _) = absurd (ne refl)
joined_full (c ∷ w) [] h = refl
joined_full (c ∷ w) (v ∷ ws) h = refl

start_full :
    (fs : List Bytes) (f : ℤ × List Bytes)
    → All IsWord fs
    → pid_fields 7 fs ≡ some f
    → is_empty (join (codes " ") (take 5 f.1)) ≡ false
unfolding pid_fields read_pid
start_full [] f h e = cc
start_full (g ∷ []) f h e = cc
start_full (g ∷ (w ∷ ws)) f (_, (word, _)) e = ground (arith, joined_full w ws word)

module _ {F : Type 0} (zero_float : F) where
  row_of-insert :
      (p q : ℤ) (r : PsRow F) (rows : Map ℤ (PsRow F))
      → row_of zero_float q (insert p r rows)
        ≡ (if int_eq.same p q then r else row_of zero_float q rows)
  unfolding row_of
  row_of-insert p q r rows = ground (arith, lookup-insert p q r rows)

  -- The PIDs seen by the first call have a start time, and no command line has been read.
  record UserInv (rows : Map ℤ (PsRow F)) (seen : List ℤ) : Type 0 where
    timed : (q : ℤ) → elem q seen ≡ true → is_empty (row_of zero_float q rows).start ≡ false
    no_command : (q : ℤ) → is_empty (row_of zero_float q rows).command ≡ true

  -- The same of the start times, and a command line stands only at a PID that the second call saw.
  record CommandInv (users : List ℤ) (rows : Map ℤ (PsRow F)) (seen : List ℤ) : Type 0 where
    timed : (q : ℤ) → elem q users ≡ true → is_empty (row_of zero_float q rows).start ≡ false
    commanded : (q : ℤ) → elem q seen ≡ false → is_empty (row_of zero_float q rows).command ≡ true

  user_line-UserInv :
      (rows : Map ℤ (PsRow F)) (seen : List ℤ) (line : Bytes)
      → UserInv rows seen
      → UserInv
          (user_line zero_float (rows, seen) line).0
          (user_line zero_float (rows, seen) line).1
  unfolding user_line elem
  user_line-UserInv rows seen line h = elim (Option-cases (pid_fields 7 (fields line))) [
    | inl e ↦ rw (e, user_line) h
    | inr (f, e) ↦
        let old = row_of zero_float f.0 rows in
        let new : PsRow F = record old {
          start = join (codes " ") (take 5 f.1);
          user = join (codes " ") (drop 5 f.1);
        } in
        rw (e, user_line)
          (record {
            timed = λ q s. ground (
              arith,
              row_of-insert f.0 q new rows,
              start_full (fields line) f (fields-IsWord line) e,
              h.timed q,
            );
            no_command =
                λ q. ground (arith, row_of-insert f.0 q new rows, h.no_command q, h.no_command f.0);
          })
  ]

  user_lines-UserInv :
      (st : Map ℤ (PsRow F) × List ℤ) (xs : List Bytes)
      → UserInv st.0 st.1
      → UserInv (user_lines zero_float st xs).0 (user_lines zero_float st xs).1
  unfolding user_lines
  user_lines-UserInv st [] h = h
  user_lines-UserInv st (x ∷ xs) h =
      user_lines-UserInv (user_line zero_float st x) xs (user_line-UserInv st.0 st.1 x h)

  command_values_keep :
      (fs : List Bytes) (r : PsRow F) → (command_values zero_float fs r).start ≡ r.start
  unfolding command_values
  command_values_keep [] r = refl
  command_values_keep (w ∷ ws) r = refl

  command_line-CommandInv :
      (users : List ℤ) (rows : Map ℤ (PsRow F)) (seen : List ℤ) (line : Bytes)
      → CommandInv users rows seen
      → CommandInv users
          (command_line zero_float (rows, seen) line).0
          (command_line zero_float (rows, seen) line).1
  unfolding command_line elem
  command_line-CommandInv users rows seen line h =
      elim (Option-cases (pid_fields 1 (fields line))) [
        | inl e ↦ rw (e, command_line) h
        | inr (f, e) ↦
            let new = command_values zero_float f.1 (row_of zero_float f.0 rows) in
            let keep = command_values_keep f.1 (row_of zero_float f.0 rows) in
            rw (e, command_line)
              (record {
                timed = λ q s.
                    ground (arith, row_of-insert f.0 q new rows, keep, h.timed q, eqb_ℤ_iff f.0 q);
                commanded = λ q s.
                    ground (arith, row_of-insert f.0 q new rows, h.commanded q, eqb_ℤ_iff f.0 q);
              })
      ]

  command_lines-CommandInv :
      (users : List ℤ) (st : Map ℤ (PsRow F) × List ℤ) (xs : List Bytes)
      → CommandInv users st.0 st.1
      → CommandInv users (command_lines zero_float st xs).0 (command_lines zero_float st xs).1
  unfolding command_lines
  command_lines-CommandInv users st [] h = h
  command_lines-CommandInv users st (x ∷ xs) h =
      command_lines-CommandInv users (command_line zero_float st x) xs
        (command_line-CommandInv users st.0 st.1 x h)

  resource_values_keep :
      (parse_float : Bytes → F) (fs : List Bytes) (r : PsRow F)
      → ((resource_values zero_float parse_float fs r).start ≡ r.start)
        × ((resource_values zero_float parse_float fs r).command ≡ r.command)
  unfolding resource_values
  resource_values_keep parse_float [] r = (refl, refl)
  resource_values_keep parse_float (c ∷ []) r = (refl, refl)
  resource_values_keep parse_float (c ∷ (m ∷ fs)) r = (refl, refl)

  resource_line-CommandInv :
      (parse_float : Bytes → F) (users : List ℤ) (rows : Map ℤ (PsRow F)) (seen : List ℤ)
      (line : Bytes)
      → CommandInv users rows seen
      → CommandInv users (resource_line zero_float parse_float rows line) seen
  unfolding resource_line
  resource_line-CommandInv parse_float users rows seen line h =
      elim (Option-cases (pid_fields 3 (fields line))) [
        | inl e ↦ rw (e, resource_line) h
        | inr (f, e) ↦
            let new = resource_values zero_float parse_float f.1 (row_of zero_float f.0 rows) in
            let keep = resource_values_keep parse_float f.1 (row_of zero_float f.0 rows) in
            rw (e, resource_line)
              (record {
                timed = λ q s.
                    ground
                      (arith, row_of-insert f.0 q new rows, keep.0, h.timed q, eqb_ℤ_iff f.0 q);
                commanded = λ q s.
                    ground
                      (arith, row_of-insert f.0 q new rows, keep.1, h.commanded q, eqb_ℤ_iff f.0 q);
              })
      ]

  resource_lines-CommandInv :
      (parse_float : Bytes → F) (users : List ℤ) (rows : Map ℤ (PsRow F)) (seen : List ℤ)
      (xs : List Bytes)
      → CommandInv users rows seen
      → CommandInv users (resource_lines zero_float parse_float rows xs) seen
  unfolding resource_lines
  resource_lines-CommandInv parse_float users rows seen [] h = h
  resource_lines-CommandInv parse_float users rows seen (x ∷ xs) h =
      resource_lines-CommandInv parse_float users (resource_line zero_float parse_float rows x) seen
        xs (resource_line-CommandInv parse_float users rows seen x h)

  lookup-drop_partial_rows :
      (q : ℤ) (users commands : List ℤ) (rows : Map ℤ (PsRow F))
      → lookup q (drop_partial_rows users commands rows)
        ≡ (if differ (elem q users) (elem q commands) then none else lookup q rows)
  unfolding drop_partial_rows lookup
  lookup-drop_partial_rows q users commands [] = ground arith
  lookup-drop_partial_rows q users commands ((p, r) ∷ rows) =
      ground (arith, lookup-drop_partial_rows q users commands rows, eqb_ℤ_iff p q)

  row_of-nil : (q : ℤ) → is_empty (row_of zero_float q []).command ≡ true
  unfolding row_of lookup
  row_of-nil q = refl

  row_of-drop_partial_rows :
      (q : ℤ) (users commands : List ℤ) (rows : Map ℤ (PsRow F))
      → row_of zero_float q (drop_partial_rows users commands rows) ≡ (
          if differ (elem q users) (elem q commands)
          then row_of zero_float q []
          else row_of zero_float q rows)
  unfolding row_of lookup
  row_of-drop_partial_rows q users commands rows =
      ground (arith, lookup-drop_partial_rows q users commands rows)

  drop_partial_rows_timed :
      (q : ℤ) (users seen : List ℤ) (rows : Map ℤ (PsRow F))
      → CommandInv users rows seen
      → is_empty (row_of zero_float q (drop_partial_rows users seen rows)).command ≡ false
      → is_empty (row_of zero_float q (drop_partial_rows users seen rows)).start ≡ false
  drop_partial_rows_timed q users seen rows h full =
      ground
        (arith, row_of-drop_partial_rows q users seen rows, h.timed q, h.commanded q, row_of-nil q)

  after_users :
      {rows : Map ℤ (PsRow F)} {users : List ℤ} → UserInv rows users → CommandInv users rows []
  after_users h = record { timed = h.timed; commanded = λ q s. h.no_command q }

  -- Whatever the three ps calls print, a PID for which there is a command line also has a start
  -- time.
  pub read_ps_timed :
      (parse_float : Bytes → F) (out1 out2 out3 : Bytes) (q : ℤ)
      → is_empty (row_of zero_float q (read_ps zero_float parse_float out1 out2 out3)).command
        ≡ false
      → is_empty (row_of zero_float q (read_ps zero_float parse_float out1 out2 out3)).start ≡ false
  unfolding read_ps
  read_ps_timed parse_float out1 out2 out3 q =
      let empty : UserInv [] [] = record {
        timed = λ r s. unfold elem in cc;
        no_command = row_of-nil;
      } in
      let users = user_lines zero_float ([], []) (split b'\n' out1) in
      let commands = command_lines zero_float (users.0, []) (split b'\n' out2) in
      drop_partial_rows_timed q users.1 commands.1 _ (
        resource_lines-CommandInv parse_float users.1 commands.0 commands.1 (split b'\n' out3) (
          command_lines-CommandInv users.1 (users.0, []) (split b'\n' out2)
            (after_users (user_lines-UserInv ([], []) (split b'\n' out1) empty))))
