-- ===== src/Datacenter/Wire/Tests.antt =====
-- datacenter/database/wire.go on short streams.
use le_cli.Prelude.{ℕ, Bytes, codes, [], ◌∷◌, ◌++◌, ◌≡◌, refl, arith}
use le_cli.Prelude.{List, Option, none, All, length, replicate, length-replicate, ◌≤◌, ◌↔◌}
use le_cli.Datacenter.Wire.{
  resp_frame, got, refused, limit, query, ended, guarded_conn, frame_read, false,
}
use le_cli.Datacenter.Wire.Conn.{
  resp_frame-IsFrame, frame_reads-prefix, frame_reads, IsAnswer, concat, Obeys, deadline_reads,
}
use le_cli.Datacenter.Wire.Frames.{IsFrame}

array_read :
    resp_frame 33 100 (codes "*2\r\n$3\r\nfoo\r\n:7\r\n+OK\r\n")
    ≡ got (codes "*2\r\n$3\r\nfoo\r\n:7\r\n") (codes "+OK\r\n")
unfolding resp_frame
array_read = refl

too_long : resp_frame 33 12 (codes "$9\r\n123456789\r\n") ≡ refused limit (codes "123456789\r\n")
unfolding resp_frame
too_long = refl

no_length : resp_frame 33 100 (codes "$x\r\n") ≡ refused query []
unfolding resp_frame
no_length = refl

cut_off : resp_frame 33 100 (codes "$5\r\nab") ≡ refused ended []
unfolding resp_frame
cut_off = refl

abbrev replies : Bytes
replies = codes "$3\r\nfoo\r\n+OK\r\n"

resp_frame-IsFrame_example :
    (resp_frame 33 1048576 (codes "+OK\r\n") ≡ got (codes "+OK\r\n") []) ↔ (
      IsFrame 33 (codes "+OK\r\n")
      × (codes "+OK\r\n" ++ [] ≡ codes "+OK\r\n")
      × (length (codes "+OK\r\n") ≤ 1048576))
resp_frame-IsFrame_example = resp_frame-IsFrame 33 1048576 (codes "+OK\r\n") (codes "+OK\r\n") []

frame_reads-prefix_example :
    let r = frame_reads (guarded_conn false replies) (4 ∷ 100 ∷ 100 ∷ []) in
    (fs : List Bytes) × (behind : Bytes) × All (IsAnswer false) fs
    × (concat fs ≡ r.1 ++ r.0.pending)
    × (concat fs ++ behind ≡ replies)
frame_reads-prefix_example = frame_reads-prefix false replies (4 ∷ 100 ∷ 100 ∷ [])

delivered : (frame_reads (guarded_conn false replies) (4 ∷ 100 ∷ 100 ∷ [])).1 ≡ replies
unfolding frame_reads frame_read guarded_conn
delivered = refl

abbrev zeros : ℕ → Bytes × Option ℕ
zeros n = (replicate n 0, none)

zeros-Obeys : Obeys (zeros, 9)
zeros-Obeys k = omega (arith, length-replicate {A = ℕ} k 0)

all_twelve : deadline_reads 1 12 ((zeros, 9) ∷ (zeros, 9) ∷ (zeros, 9) ∷ []) ≡ 12
unfolding deadline_reads
all_twelve = refl
