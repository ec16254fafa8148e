-- ===== src/Prelude/Paths.antt =====
-- What the code uses of Go's `path` and `strings` on texts; paths are those of Linux.
use Prim.Native.Char.{code}
use Prim.Native.String.{String, ◌++◌ as text_append}
use mathlib.Core.Logic.{inl, inr}
use mathlib.Core.Path.{◌≡◌, refl}
use mathlib.Core.Bool.{false, Bool, ◌||◌, ◌&&◌, not}
use mathlib.Core.List.{List, [], ◌∷◌, reverse}
use text.Mathlib.Text.{starts_with as begins_with}
use casa_os_app_management.Prelude.Tests.{if◌then◌else◌, ◌=ℕ◌, Bool-cases}
use casa_os_app_management.Prelude.Text.{◌==◌}

infixr 65 ◌<>◌
abbrev pub ◌<>◌ : String → String → String
◌<>◌ = text_append

-- `strings.HasPrefix`
abbrev pub starts_with : String → String → Bool
starts_with = begins_with

-- the parts between slashes
unfoldable pub split_slash : String → String × List String
split_slash String.[] = ("", [])
split_slash (String.◌∷◌ c s) =
    let (part, parts) = split_slash s in
    if code c =ℕ b'/' then ("", part ∷ parts) else (String.◌∷◌ c part, parts)

abbrev pub parts_of : String → List String
parts_of s = let (part, parts) = split_slash s in part ∷ parts

abbrev pub join_slash : List String → String
join_slash [] = ""
join_slash (part ∷ []) = part
join_slash (part ∷ next ∷ parts) = part <> ("/" <> join_slash (next ∷ parts))

-- The parts that `path.Clean` keeps, last first. `..` takes the one before it with it, and is kept
-- where there is none, unless the path starts at the root.
unfoldable pub clean_parts : Bool → List String → List String → List String
clean_parts rooted kept [] = reverse kept
clean_parts rooted [] (part ∷ parts) =
    let rest = clean_parts rooted [] parts in
    let with_part = clean_parts rooted (part ∷ []) parts in
    if part == "" || part == "." || (part == ".." && rooted) then rest else with_part
clean_parts rooted (top ∷ kept) (part ∷ parts) =
    let rest = clean_parts rooted (top ∷ kept) parts in
    let without_top = clean_parts rooted kept parts in
    let with_part = clean_parts rooted (part ∷ top ∷ kept) parts in
    if part == "" || part == "."
    then rest
    else if part == ".." && not (top == "..")
    then without_top
    else with_part

abbrev pub dot_if_empty : String → String
dot_if_empty s = if s == "" then "." else s

-- `path.Clean`
unfoldable pub clean : String → String
unfolding split_slash clean_parts
clean s =
    let rooted = starts_with s "/" in
    dot_if_empty ((if rooted then "/" else "") <> join_slash (clean_parts rooted [] (parts_of s)))

-- `path.Join` of two elements
unfoldable pub join_path : String → String → String
unfolding clean
join_path a b =
    if a == "" && b == ""
    then ""
    else if a == ""
    then clean b
    else if b == ""
    then clean a
    else clean (a <> ("/" <> b))

abbrev pub last_part : String → List String → String
last_part found [] = found
last_part found (part ∷ parts) = last_part (if part == "" then found else part) parts

-- `path.Base`
unfoldable pub base : String → String
unfolding split_slash
base s =
    let last = last_part "" (parts_of s) in
    if s == "" then "." else if last == "" then "/" else last

abbrev pub all_but_last : List String → List String
all_but_last [] = []
all_but_last (part ∷ []) = []
all_but_last (part ∷ next ∷ parts) = part ∷ all_but_last (next ∷ parts)

-- up to the last slash
abbrev pub up_to_slash : List String → String
up_to_slash [] = ""
up_to_slash (part ∷ parts) = join_slash (part ∷ parts) <> "/"

-- `path.Dir`
unfoldable pub dir : String → String
unfolding clean split_slash
dir s = clean (up_to_slash (all_but_last (parts_of s)))

clean_test : clean "/a//b/./../c/" ≡ "/a/c"
unfolding clean
clean_test = refl

base_test : (base "/a/b.yml/" ≡ "b.yml") × ((dir "/a/b" ≡ "/a") × (clean "../x/.." ≡ ".."))
unfolding base dir clean
base_test = (refl, (refl, refl))

dot_if_empty-not_empty : (s : String) → (dot_if_empty s == "") ≡ false
dot_if_empty-not_empty s = elim (Bool-cases (s == "")) [
  | inl e ↦ rw e refl
  | inr e ↦ rw (e, e) refl
]

pub clean-not_empty : (s : String) → (clean s == "") ≡ false
unfolding clean
clean-not_empty s = dot_if_empty-not_empty (
    (if starts_with s "/" then "/" else "")
    <> join_slash (clean_parts (starts_with s "/") [] (parts_of s)))
