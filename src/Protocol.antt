-- ===== src/Protocol.antt =====
-- obs-plugin/src/protocol.hpp and protocol.cpp: the PG/1 frames and their parser.
pub mod Split
pub mod Number
pub mod Uuid
pub mod Tokens
pub mod Grammar
mod Tests
use mathlib.Core.Option
use obs_vscode_privacy_guard.Base.{
  Bool, Bytes, List, Option, [], codes, drop, equal, false, if◌then◌else◌, is_nil, leb, length, ltb,
  none, not, refl, some, suc, take, true, u64_mod, zero, ℕ, ◌&&◌, ◌*◌, ◌++◌, ◌+◌, ◌-◌, ◌==◌, ◌||◌,
  ◌∷◌, ◌≡◌,
}

abbrev pub max_frame_size : ℕ
max_frame_size = 1024

pub data FrameKind : Type 0 where
  hello state goodbye : FrameKind

pub record Frame : Type 0 where
  pub kind : FrameKind
  pub client_id : Bytes
  pub sequence : ℕ
  pub sensitive : Bool

-- The distance to the next space, as `line.find(' ', position)` measures it from `position`;
-- `none` is `npos`.
pub find_space : Bytes → Option ℕ
find_space [] = none
find_space (c ∷ cs) = if c == b' ' then some 0 else Option.map suc (find_space cs)

-- The loop of `split_tokens`. `rest` is the line from `position` on. Each round takes at least two
-- bytes of it or is the last, so the length of the line is fuel enough.
pub split_loop : ℕ → Bytes → List Bytes → List Bytes
split_loop zero rest tokens = tokens
split_loop (suc fuel) [] tokens = tokens
split_loop (suc fuel) (c ∷ cs) tokens = elim (find_space (c ∷ cs)) [
  | none ↦ tokens ++ (c ∷ cs) ∷ []
  | some separator ↦
      let token = take separator (c ∷ cs) in
      let more = split_loop fuel (drop (suc separator) (c ∷ cs)) (tokens ++ token ∷ []) in
      if separator == 0 then [] else more
]

pub split_tokens : Bytes → List Bytes
unfolding split_loop find_space
split_tokens line = split_loop (length line) line []

pub is_hexadecimal : ℕ → Bool
is_hexadecimal c =
    (leb b'0' c && leb c b'9') || (leb b'a' c && leb c b'f') || (leb b'A' c && leb c b'F')

-- `index` is one of the four `separators`.
abbrev pub is_separator : ℕ → Bool
is_separator index = index == 8 || index == 13 || index == 18 || index == 23

-- The loop of `is_uuid` from `index` on.
pub uuid_from : ℕ → Bytes → Bool
unfolding is_hexadecimal
uuid_from index [] = true
uuid_from index (c ∷ cs) =
    if (if is_separator index then not (c == b'-') else not (is_hexadecimal c))
    then false
    else uuid_from (index + 1) cs

pub is_uuid : Bytes → Bool
unfolding uuid_from
is_uuid value = if not (length value == 36) then false else uuid_from 0 value

-- `std::errc` as `std::from_chars` returns it.
pub data Errc : Type 0 where
  success invalid_argument result_out_of_range : Errc

abbrev pub is_digit : ℕ → Bool
is_digit c = leb b'0' c && leb c b'9'

-- How many digits `value` begins with, and the number that they spell behind `n`.
pub digit_count : Bytes → ℕ
digit_count [] = 0
digit_count (c ∷ cs) = if is_digit c then suc (digit_count cs) else 0

pub digit_value : ℕ → Bytes → ℕ
digit_value n [] = n
digit_value n (c ∷ cs) = if is_digit c then digit_value (n * 10 + (c - b'0')) cs else n

-- `std::from_chars` into a `std::uint64_t`: the number of bytes read, the error and the value, which
-- an error leaves at its initial 0.
pub from_chars : Bytes → ℕ × Errc × ℕ
unfolding digit_count digit_value
from_chars value =
    if digit_count value == 0
    then (0, invalid_argument, 0)
    else if leb u64_mod (digit_value 0 value)
    then (digit_count value, result_out_of_range, 0)
    else (digit_count value, success, digit_value 0 value)

accept_number : ℕ → ℕ × Errc × ℕ → Option ℕ
accept_number size (end, success, sequence) = if end == size then some sequence else none
accept_number size (end, invalid_argument, sequence) = none
accept_number size (end, result_out_of_range, sequence) = none

pub parse_sequence : Bytes → Option ℕ
unfolding from_chars accept_number
parse_sequence value = accept_number (length value) (from_chars value)

-- The rest of `parse_frame` behind the tokens `PG/1 HELLO`, `PG/1 STATE` and `PG/1 GOODBYE`.
pub read_hello : List Bytes → Option Frame
unfolding is_uuid
read_hello (id ∷ []) =
    if is_uuid id
    then some (record { kind = FrameKind.hello; client_id = id; sequence = 0; sensitive = false })
    else none
read_hello _ = none

pub state_frame : Option ℕ → Bytes → Option Frame
state_frame none word = none
state_frame (some sequence) word =
    if not (equal word (codes "SAFE")) && not (equal word (codes "SENSITIVE"))
    then none
    else some (record {
      kind = FrameKind.state;
      client_id = [];
      sequence = sequence;
      sensitive = equal word (codes "SENSITIVE");
    })

pub read_state : List Bytes → Option Frame
unfolding parse_sequence state_frame
read_state (number ∷ word ∷ []) = state_frame (parse_sequence number) word
read_state _ = none

pub read_goodbye : List Bytes → Option Frame
read_goodbye [] =
    some (record { kind = FrameKind.goodbye; client_id = []; sequence = 0; sensitive = false })
read_goodbye _ = none

pub read_tokens : List Bytes → Option Frame
unfolding read_hello read_state read_goodbye
read_tokens (version ∷ command ∷ rest) =
    if not (equal version (codes "PG/1"))
    then none
    else if equal command (codes "HELLO")
    then read_hello rest
    else if equal command (codes "STATE")
    then read_state rest
    else if equal command (codes "GOODBYE")
    then read_goodbye rest
    else none
read_tokens _ = none

-- `front` and `back`, of a line that is not empty.
abbrev pub front : Bytes → ℕ
front [] = 0
front (c ∷ cs) = c

abbrev pub back : Bytes → ℕ
back [] = 0
back (c ∷ []) = c
back (c ∷ d ∷ cs) = back (d ∷ cs)

-- The guard at the top of `parse_frame`.
abbrev pub is_refused : Bytes → Bool
is_refused line =
    is_nil line
    || ltb max_frame_size (length line)
    || front line == b' '
    || back line == b' '
    || back line == b'\r'

unfoldable pub parse_frame : Bytes → Option Frame
unfolding read_tokens split_tokens equal
parse_frame line = if is_refused line then none else read_tokens (split_tokens line)
