-- ===== src/Control/Head.antt =====
-- `handle` of crates/warp-masque/src/control.rs: the reading of a request's head, and the token.
--
-- What the client sends is the list of the reads, where `none` is a read that fails and the list's end is
-- the end of the stream. The head that is read is a byte string, and its text a list of code points.
pub mod Guard
use warp_proxy.Base.{
  ℕ, ◌+◌, ◌*◌, Bool, true, false, ◌&&◌, ◌||◌, List, [], ◌∷◌, ◌++◌, Option, none, some,
}
use warp_proxy.Base.{◌==◌, ltb, leb, if◌then◌else◌, length}
use warp_proxy.Base.Text.{text, same, split_once}
use warp_proxy.Config.{is_whitespace, trim}
use warp_proxy.Pool.{Pool}
use warp_proxy.Control.{Answers, Response, route}

-- `buf.windows(4).any(|w| w == b"\r\n\r\n")`
pub ends_head : List ℕ → Bool
ends_head (a ∷ b ∷ c ∷ d ∷ t) =
    let rest = ends_head (b ∷ c ∷ d ∷ t) in
    if a == 13 && (b == 10 && (c == 13 && d == 10)) then true else rest
ends_head _ = false

-- The `loop`: what is in the buffer at its end, unless a read has failed.
pub read_head : List ℕ → List (Option (List ℕ)) → Option (List ℕ)
unfolding ends_head
read_head buf [] = some buf
read_head buf (none ∷ reads) = none
read_head buf (some [] ∷ reads) = some buf
read_head buf (some (b ∷ bytes) ∷ reads) =
    let next = buf ++ b ∷ bytes in
    let rest = read_head next reads in
    if ends_head next || ltb (16 * 1024) (length next) then some next else rest

unfoldable cons_line : ℕ → List (List ℕ) → List (List ℕ)
cons_line c [] = (c ∷ []) ∷ []
cons_line c (l ∷ ls) = (c ∷ l) ∷ ls

-- `split("\r\n")`
pub split_lines : List ℕ → List (List ℕ)
unfolding cons_line
split_lines [] = [] ∷ []
split_lines (c ∷ []) = (c ∷ []) ∷ []
split_lines (c ∷ d ∷ t) =
    let behind = split_lines t in
    let within = split_lines (d ∷ t) in
    if c == 13 && d == 10 then [] ∷ behind else cons_line c within

-- The words of `split_whitespace`; a word that has begun stands first, and may be empty.
begun : List ℕ → List (List ℕ)
unfolding cons_line
begun [] = [] ∷ []
begun (c ∷ t) = let rest = begun t in if is_whitespace c then [] ∷ rest else cons_line c rest

not_empty : List (List ℕ) → List (List ℕ)
not_empty [] = []
not_empty ([] ∷ ws) = not_empty ws
not_empty ((c ∷ w) ∷ ws) = (c ∷ w) ∷ not_empty ws

pub split_whitespace : List ℕ → List (List ℕ)
unfolding begun not_empty
split_whitespace t = not_empty (begun t)

-- `next().unwrap_or("")`
first_or_empty : List (List ℕ) → List ℕ
first_or_empty [] = []
first_or_empty (w ∷ ws) = w

second_or_empty : List (List ℕ) → List ℕ
unfolding first_or_empty
second_or_empty [] = []
second_or_empty (w ∷ ws) = first_or_empty ws

lower : ℕ → ℕ
lower c = if leb 0x41 c && leb c 0x5a then c + 0x20 else c

all_lower : List ℕ → List ℕ
unfolding lower
all_lower [] = []
all_lower (c ∷ t) = lower c ∷ all_lower t

-- The value of a line that is the token's header.
token_of : Option (List ℕ × List ℕ) → Option (List ℕ)
unfolding all_lower
token_of none = none
token_of (some (k, v)) =
    if same (all_lower (trim k)) (text "x-warp-token") then some (trim v) else none

-- `find_map`, and the empty token where no line is the header.
pub presented : List (List ℕ) → List ℕ
unfolding token_of
presented [] = []
presented (l ∷ lines) =
    let rest = presented lines in elim (token_of (split_once 0x3a l)) [ none ↦ rest | some v ↦ v ]

pub tail_lines : List (List ℕ) → List (List ℕ)
tail_lines [] = []
tail_lines (l ∷ lines) = lines

-- `split_once('?')`, and no query where there is none.
target_parts : List ℕ → List ℕ × List ℕ
target_parts target = elim (split_once 0x3f target) [
  | none ↦ (target, [])
  | some (path, query) ↦ (path, query)
]

pub data Reply : Type 0 where
  hung_up no_content forbidden : Reply
  answered : Response → Reply

-- The part of `handle` behind the head.
pub dispatch : Pool → Answers → List ℕ → List (List ℕ) → Reply × Pool
unfolding split_whitespace first_or_empty second_or_empty presented tail_lines target_parts
dispatch p answers token lines =
    let words = split_whitespace (first_or_empty lines) in
    if same (first_or_empty words) (text "OPTIONS")
    then (no_content, p)
    else if same (presented (tail_lines lines)) token
    then (let (path, query) = target_parts (second_or_empty words) in
        let (response, q) = route p path query answers in (answered response, q))
    else (forbidden, p)

pub handle : (List ℕ → List ℕ) → Pool → Answers → List ℕ → List (Option (List ℕ)) → Reply × Pool
unfolding read_head dispatch split_lines
handle from_utf8_lossy p answers token reads = elim (read_head [] reads) [
  | none ↦ (hung_up, p)
  | some buf ↦ dispatch p answers token (split_lines (from_utf8_lossy buf))
]
