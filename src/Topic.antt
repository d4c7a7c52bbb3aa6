-- ===== src/Topic.antt =====
-- crates/server/src/topic.rs and the `TopicError` of crates/server/src/error.rs: the checks that
-- publish topics and subscription filters pass before they reach the router. A `Bytes` or a
-- `BytesMut` is the list of its bytes, so `freeze` leaves no trace.
mod Split
pub mod Shape
mod Placed
pub mod Names
pub mod Checks
pub mod Wildcards
mod Display
mod UnitTests
mod Examples
use ocypode.Prelude.{
  ℕ, zero, suc, ◌+◌, ◌-◌, Bool, true, false, not, ◌&&◌, ◌||◌, List, [], ◌∷◌, ◌==◌, ltb,
  if◌then◌else◌, Bytes, codes, bytes_eq, length, Result, ok, err, ◌>>=◌, ◌>>◌, index, enumerate,
  try_for_each,
}

abbrev pub max_layers : ℕ
max_layers = 8

abbrev pub max_topic_length : ℕ
max_topic_length = 256

abbrev pub sep_byte : ℕ
sep_byte = b'/'

abbrev pub wildcard_single_byte : ℕ
wildcard_single_byte = b'+'

abbrev pub wildcard_multi_byte : ℕ
wildcard_multi_byte = b'#'

abbrev pub wildcard_single : Bytes
wildcard_single = wildcard_single_byte ∷ []

abbrev pub wildcard_multi : Bytes
wildcard_multi = wildcard_multi_byte ∷ []

abbrev pub sys_prefix : Bytes
sys_prefix = codes "$SYS"

abbrev pub global_prefix : Bytes
global_prefix = codes "$G"

pub data TopicError : Type 0 where
  empty : TopicError
  too_long : ℕ → TopicError
  leading_slash trailing_slash empty_layer : TopicError
  too_many_layers : ℕ → TopicError
  reserved_sys_prefix global_prefix_without_topic : TopicError
  wildcard_in_publish_topic multi_wildcard_not_terminal invalid_wildcard_usage : TopicError

pub record Topic : Type 0 where
  pub bytes : Bytes

pub record TopicFilter : Type 0 where
  pub bytes : Bytes

abbrev pub is_empty {ℓ} : {A : Type ℓ} → List A → Bool
is_empty [] = true
is_empty (x ∷ xs) = false

abbrev cons_head : ℕ → List Bytes → List Bytes
cons_head c [] = (c ∷ []) ∷ []
cons_head c (seg ∷ segs) = (c ∷ seg) ∷ segs

-- `slice::split` at the separator: as many pieces as separators, and one more.
unfoldable pub split : Bytes → List Bytes
split [] = [] ∷ []
split (c ∷ s) = let rest = split s in if c == sep_byte then [] ∷ rest else cons_head c rest

unfoldable pub remove_empty : List Bytes → List Bytes
remove_empty [] = []
remove_empty (seg ∷ segs) =
    let rest = remove_empty segs in if is_empty seg then rest else seg ∷ rest

-- `Topic::segments` and `TopicFilter::segments`, which have one body.
unfoldable pub segments_of : Bytes → List Bytes
unfolding split remove_empty
segments_of bytes = remove_empty (split bytes)

unfoldable pub validate_raw : Bytes → Result TopicError Bytes
validate_raw raw =
    if is_empty raw
    then err empty
    else if ltb max_topic_length (length raw)
    then err (too_long (length raw))
    else do
      first ← index raw 0
      if first == sep_byte then err leading_slash else do
        last ← index raw (length raw - 1)
        if last == sep_byte then err trailing_slash else ok raw

unfoldable pub any_empty : List Bytes → Bool
any_empty [] = false
any_empty (seg ∷ segs) = is_empty seg || any_empty segs

-- The checks of `validate_segments` behind the split.
unfoldable pub validate_layers : List Bytes → Result TopicError (List Bytes)
unfolding any_empty bytes_eq
validate_layers segments =
    if any_empty segments
    then err empty_layer
    else if ltb max_layers (length segments)
    then err (too_many_layers (length segments))
    else do
      first ← index segments 0
      if bytes_eq first sys_prefix
          then err reserved_sys_prefix
          else if bytes_eq first global_prefix && ltb (length segments) 2
          then err global_prefix_without_topic
          else ok segments

unfoldable pub validate_segments : Bytes → Result TopicError (List Bytes)
unfolding validate_raw split validate_layers
validate_segments bytes = do raw ← validate_raw bytes; validate_layers (split raw)

unfoldable pub contains : Bytes → ℕ → Bool
contains [] b = false
contains (c ∷ s) b = (c == b) || contains s b

unfoldable pub has_wildcard : Bytes → Bool
unfolding contains
has_wildcard seg = contains seg wildcard_single_byte || contains seg wildcard_multi_byte

-- `&segments[1..]`
abbrev pub from_second : List Bytes → List Bytes
from_second [] = []
from_second (seg ∷ segs) = segs

unfoldable pub matchable_segments : List Bytes → Result TopicError (List Bytes)
unfolding bytes_eq
matchable_segments segments = do
  first ← index segments 0
  if bytes_eq first global_prefix then ok (from_second segments) else ok segments

unfoldable pub reject_wildcard : Bytes → Result TopicError (Unit {0})
unfolding has_wildcard
reject_wildcard seg = if has_wildcard seg then err wildcard_in_publish_topic else ok tt

unfoldable pub validate_no_wildcards : List Bytes → Result TopicError (Unit {0})
unfolding matchable_segments reject_wildcard
validate_no_wildcards segments = do
  matchable ← matchable_segments segments
  try_for_each reject_wildcard matchable

unfoldable pub check_placement : ℕ → ℕ × Bytes → Result TopicError (Unit {0})
unfolding bytes_eq has_wildcard
check_placement len (i, seg) =
    if bytes_eq seg wildcard_single || bytes_eq seg wildcard_multi
    then (if bytes_eq seg wildcard_multi && not (i == (len - 1))
        then err multi_wildcard_not_terminal
        else ok tt)
    else if has_wildcard seg
    then err invalid_wildcard_usage
    else ok tt

unfoldable pub validate_wildcard_placement : List Bytes → Result TopicError (Unit {0})
unfolding matchable_segments check_placement
validate_wildcard_placement segments = do
  matchable ← matchable_segments segments
  try_for_each (check_placement (length matchable)) (enumerate 0 matchable)

-- `Topic::new`
unfoldable pub new_topic : Bytes → Result TopicError Topic
unfolding validate_segments validate_no_wildcards
new_topic bytes = do
  segments ← validate_segments bytes
  validate_no_wildcards segments
  ok (record { bytes = bytes })

-- `TopicFilter::new`
unfoldable pub new_filter : Bytes → Result TopicError TopicFilter
unfolding validate_segments validate_wildcard_placement
new_filter bytes = do
  segments ← validate_segments bytes
  validate_wildcard_placement segments
  ok (record { bytes = bytes })
