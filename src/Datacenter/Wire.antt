-- ===== src/Datacenter/Wire.antt =====
-- datacenter/database/wire.go: the frames that are read from a database's connection. The stream is
-- what the connection has still to give; where it ends, a read fails.
pub mod Frames
pub mod Sound
pub mod Complete
pub mod Conn
mod Tests
use le_cli.Prelude.{
  ℕ, zero, suc, ◌+◌, ◌*◌, ◌-◌, ◌^◌, Bytes, Bool, true, false, not, ◌&&◌, ◌||◌, length, take, drop,
  ltb, [], ◌∷◌, ◌++◌, Option, none, some, if◌then◌else◌, ◌==◌, get_elem?,
}
use le_cli.Prelude.Decimal.{atoi, NumError}
use le_cli.Prelude.Int.{ℤ, pos, negsuc, ltb_ℤ}

abbrev pub max_result : ℕ
max_result = 1048576

abbrev pub max_rows : ℕ
max_rows = 1000

-- `ErrLimit`, `ErrQuery`, and the error of a stream that ended.
pub data WireError : Type 0 where
  limit query ended : WireError

-- What a function read, or its error, and the stream behind it.
pub data Reading : Type 0 where
  got : Bytes → Bytes → Reading
  refused : WireError → Bytes → Reading

-- `if err != nil { return nil, err }`
abbrev pub bind : Reading → (Bytes → Bytes → Reading) → Reading
bind (got out rest) use_it = use_it out rest
bind (refused e rest) use_it = refused e rest

-- `bufio.Reader.ReadSlice('\n')`, with the room that is left in the buffer.
unfoldable pub read_slice : ℕ → Bytes → Reading
read_slice zero s = refused limit s
read_slice (suc room) [] = refused ended []
read_slice (suc room) (c ∷ s) =
    let more = bind (read_slice room s) (λ line rest. got (c ∷ line) rest) in
    if c == 10 then got (c ∷ []) s else more

-- `io.ReadFull` of so many bytes.
unfoldable pub read_full : ℕ → Bytes → Reading
read_full n s = if ltb (length s) n then refused ended [] else got (take n s) (drop n s)

-- Whether a text ends with CR LF.
unfoldable pub ends_crlf : Bytes → Bool
ends_crlf [] = false
ends_crlf (c ∷ []) = false
ends_crlf (c ∷ (d ∷ [])) = c == 13 && d == 10
ends_crlf (c ∷ (d ∷ (e ∷ s))) = ends_crlf (d ∷ (e ∷ s))

-- A bulk string, behind its header `out`; `n > budget - len(out) - 2` on integers that may be
-- negative.
unfoldable pub bulk : ℕ → ℕ → Bytes → Bytes → Reading
unfolding read_full ends_crlf
bulk n budget out s =
    if ltb budget (n + length out + 2)
    then refused limit s
    else bind (read_full (n + 2) s)
        λ part rest. if ends_crlf part then got (out ++ part) rest else refused query rest

-- The loop over the parts of an array; `frame` reads one of them within a budget.
unfoldable pub parts : (ℕ → Bytes → Reading) → ℕ → ℕ → Bytes → Bytes → Reading
parts frame zero budget out s = got out s
parts frame (suc n) budget out s =
    bind (frame (budget - length out) s) (λ part rest. parts frame n budget (out ++ part) rest)

-- What follows a header with a number.
unfoldable pub counted :
    (ℕ → Bytes → Reading) → Bool → ℤ × Option NumError → ℕ → Bytes → Bytes → Reading
unfolding bulk parts
counted frame string (n, some e) budget out s = refused query s
counted frame string (negsuc zero, none) budget out s = got out s
counted frame string (negsuc (suc n), none) budget out s = refused query s
counted frame true (pos n, none) budget out s = bulk n budget out s
counted frame false (pos n, none) budget out s =
    if ltb (2 * max_rows + 32) n then refused limit s else parts frame n budget out s

-- The switch on the first byte of a line.
unfoldable pub after_line : (ℕ → Bytes → Reading) → ℕ → Bytes → Bytes → Reading
unfolding counted atoi
after_line frame budget [] s = refused query s
after_line frame budget (c ∷ line) s =
    let number = atoi (take (length line - 2) line) in
    if c == b'+' || c == b'-' || c == b':'
    then got (c ∷ line) s
    else if c == b'$'
    then counted frame true number budget (c ∷ line) s
    else if c == b'*'
    then counted frame false number budget (c ∷ line) s
    else refused query s

-- `respFrame`: `levels` is 33 less the depth.
unfoldable pub resp_frame : ℕ → ℕ → Bytes → Reading
unfolding read_slice after_line ends_crlf
resp_frame zero budget s = refused limit s
resp_frame (suc levels) budget s =
    if ltb budget 3
    then refused limit s
    else bind (read_slice 4096 s) λ line rest.
      if ltb (length line) 3 || not (ends_crlf line) || ltb budget (length line)
      then refused query rest
      else after_line (resp_frame levels) budget line rest

pub byte_at : Bytes → ℕ → ℕ
byte_at s i = elim (get_elem? s i) [ none ↦ 0 | some c ↦ c ]

-- `binary.LittleEndian.Uint32` of the four bytes from a place on.
pub little_endian : Bytes → ℕ → ℕ
little_endian s i =
    byte_at s i + 256 * (byte_at s (i + 1) + 256 * (byte_at s (i + 2) + 256 * byte_at s (i + 3)))

-- A message of MongoDB: the header says how long it is.
unfoldable pub mongo_frame : Bytes → Reading
unfolding read_full little_endian byte_at
mongo_frame s = bind (read_full 16 s) λ header rest.
    let size = little_endian header 0 in
    if ltb size 16 || ltb max_result size || little_endian header 12 == 2012
    then refused limit rest
    else bind (read_full (size - 16) rest) (λ body behind. got (header ++ body) behind)

-- `frameConn`; `stream` is its reader.
pub record FrameConn : Type 0 where
  pub mongo : Bool
  pub pending : Bytes
  pub stream : Bytes

-- What a call returns: the bytes that `copy` moves, or the error.
pub data Answer : Type 0 where
  bytes : Bytes → Answer
  failed : WireError → Answer

unfoldable pub hand_out : FrameConn → ℕ → FrameConn × Answer
hand_out c n = (record c { pending = drop n c.pending }, bytes (take n c.pending))

pub next_frame : Bool → Bytes → Reading
unfolding mongo_frame resp_frame
next_frame true s = mongo_frame s
next_frame false s = resp_frame 33 max_result s

-- `frameConn.Read`
unfoldable pub frame_read : FrameConn → ℕ → FrameConn × Answer
unfolding hand_out next_frame
frame_read c n =
    if n == 0
    then (c, bytes [])
    else if not (length c.pending == 0)
    then hand_out c n
    else (elim (next_frame c.mongo c.stream) [
      | refused e rest ↦ (record c { pending = []; stream = rest }, failed e)
      | got frame rest ↦ hand_out (record c { pending = frame; stream = rest }) n
    ])

-- `guardedConn`
unfoldable pub guarded_conn : Bool → Bytes → FrameConn
guarded_conn mongo stream = record { mongo = mongo; pending = []; stream = stream }

-- `deadlineConn.Read`: the bytes that may still be read, and the result. `conn` is the connection's
-- own `Read`, which gives bytes and may give an error with them.
unfoldable pub deadline_read :
    {E : Type 0} → (ℕ → Bytes × Option E) → E → ℕ → ℕ → ℕ × (Bytes × Option E)
deadline_read conn limit_error remaining n =
    let given = conn (if ltb remaining n then remaining else n) in
    if remaining == 0 then (0, ([], some limit_error)) else (remaining - length given.0, given)

-- `SetDeadline`, `SetReadDeadline` and `SetWriteDeadline`: no time at all is `none`.
unfoldable pub bounded_deadline : ℤ → Option ℤ → ℤ
bounded_deadline until none = until
bounded_deadline until (some t) = if ltb_ℤ until t then until else t
