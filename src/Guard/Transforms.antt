-- ===== src/Guard/Transforms.antt =====
-- crates/cypher-guard/src/transforms.rs: variable-length paths are rewritten to a bounded range.
pub mod Bounded
pub mod Splice
use mathlib.Core.Option
use nexus_scout.Base.{
  and_then, ℕ, Bool, true, false, not, ◌&&◌, List, [], ◌∷◌, ◌++◌, Option, none, some, leb, min,
  ◌==◌, if◌then◌else◌, all, take, drop, Bytes, codes, is_ascii_digit, parse_u32, decimal,
}
use nexus_scout.Guard.Lexer.{TokenKind, Token, text, next_is}

abbrev pub is_empty : Bytes → Bool
is_empty [] = true
is_empty (b ∷ bs) = false

unfoldable pub parse_uint : Bytes → Option ℕ
parse_uint s = if not (is_empty s) && all is_ascii_digit s then some (parse_u32 s) else none

-- `body.split_once("..")`.
unfoldable pub split_dots : Bytes → Option (Bytes × Bytes)
unfolding next_is
split_dots [] = none
split_dots (b ∷ bs) =
    let rest = Option.map (λ (p : Bytes × Bytes). (b ∷ p.0, p.1)) (split_dots bs) in
    if b == b'.' && next_is b'.' bs then some ([], drop 1 bs) else rest

-- One side of a `..` range, which is open if it is empty: `none` where `parse_uint(..)?` returns.
unfoldable pub parse_side : Bytes → Option (Option ℕ)
unfolding parse_uint
parse_side s = if is_empty s then some none else Option.map some (parse_uint s)

abbrev pub Bounds : Type 0
Bounds = Option ℕ × Option ℕ

unfoldable pub parse_sides : Bytes × Bytes → Option Bounds
parse_sides (lo, hi) =
    and_then (parse_side lo) λ lower. Option.map (λ upper. (lower, upper)) (parse_side hi)

unfoldable pub parse_single : Bytes → Option Bounds
parse_single body = Option.map (λ n. (some n, some n)) (parse_uint body)

unfoldable pub parse_range : Bytes → Option Bounds
parse_range body =
    if is_empty body
    then some (none, none)
    else elim (split_dots body) [ some p ↦ parse_sides p | none ↦ parse_single body ]

-- `format!("*{}..{}", lower, upper)`.
unfoldable pub print_range : ℕ → ℕ → Bytes
print_range lower upper = b'*' ∷ (decimal lower ++ (b'.' ∷ b'.' ∷ decimal upper))

-- The `match` on the bounds; `get_or` is `lower.unwrap_or(1)`.
unfoldable pub rebound_range : ℕ → Bounds → Option Bytes
rebound_range max_depth (lower, upper) =
    let replacement = some (print_range (min (Option.get_or lower 1) max_depth) max_depth) in
    elim upper [ none ↦ replacement | some u ↦ if leb u max_depth then none else replacement ]

unfoldable pub rebound : Bytes → ℕ → Option Bytes
unfolding rebound_range
rebound t max_depth = and_then (parse_range (drop 1 t)) (rebound_range max_depth)

-- The `format!` of a note.
unfoldable pub print_note : Bytes → Bytes → Bytes
print_note original replacement =
    codes "variable-length path '"
    ++ (original ++ (codes "' bounded to '" ++ (replacement ++ codes "'")))

unfoldable pub is_path_range : TokenKind → Bool
is_path_range TokenKind.path_range = true
is_path_range _ = false

-- What a round of the loop over the tokens finds: the replacement of the token, if any.
unfoldable pub replacement_of : Bytes → ℕ → Token → Option Bytes
unfolding is_path_range
replacement_of src max_depth t =
    if not (is_path_range t.kind) then none else rebound (text src t) max_depth

pub record Edit : Type 0 where
  pub start : ℕ
  pub end : ℕ
  pub replacement : Bytes

-- `notes.push(…)` and `edits.push(…)`, in front of those of the tokens behind.
unfoldable pub add_edit :
    Bytes → Token → Option Bytes → List Edit × List Bytes → List Edit × List Bytes
add_edit src t none later = later
add_edit src t (some r) (edits, notes) = (
  record { start = t.start; end = t.end; replacement = r } ∷ edits,
  print_note (text src t) r ∷ notes,
)

-- The loop over the tokens: the edits and the notes, in order.
unfoldable pub collect : Bytes → ℕ → List Token → List Edit × List Bytes
unfolding add_edit
collect src max_depth [] = ([], [])
collect src max_depth (t ∷ ts) =
    add_edit src t (replacement_of src max_depth t) (collect src max_depth ts)

-- `out.replace_range(start..end, replacement)`.
unfoldable pub replace_range : Edit → Bytes → Bytes
replace_range e out = take e.start out ++ (e.replacement ++ drop e.end out)

-- The loop over the edits, from the last one to the first.
unfoldable pub apply_edits : List Edit → Bytes → Bytes
apply_edits [] out = out
apply_edits (e ∷ es) out = replace_range e (apply_edits es out)

-- With no edit the loop changes nothing, so the early return for that case needs no test.
unfoldable pub bound_paths : Bytes → List Token → ℕ → Bytes × List Bytes
bound_paths src tokens max_depth =
    let (edits, notes) = collect src max_depth tokens in (apply_edits edits src, notes)
