-- ===== src/LogStore/Query/Pager/Order.antt =====
-- pkg/logstore/query.go: lines are ordered by time, then file, then offset, and no two share a place.
use casa_os_app_management.Prelude.{
  ℕ, ◌≤◌, ◌≡◌, ◌≢◌, ◌⊎◌, inl, inr, refl, sym, ap, ◌∙◌, Bool, true, false, not, Option, none, some,
  [], ◌∷◌, arith, if◌then◌else◌,
}
use Prim.Native.Nat.{compare, Ordering}
use casa_os_app_management.LogStore.Line.{Bytes}
use casa_os_app_management.LogStore.Query.Cursor.{Cursor}
use casa_os_app_management.LogStore.Query.Pager.{
  Query, tie_break, compare_bytes, compare_to, is_lt, Item, cursor_of, is_some, first,
}

infix 50 ◌≺◌
abbrev pub flip : Ordering → Ordering
flip Ordering.lt = Ordering.gt
flip Ordering.eq = Ordering.eq
flip Ordering.gt = Ordering.lt

flip-tie_break : (a b : Ordering) → tie_break (flip a) (flip b) ≡ flip (tie_break a b)
flip-tie_break Ordering.lt b = refl
flip-tie_break Ordering.eq b = refl
flip-tie_break Ordering.gt b = refl

flip-compare : (a b : ℕ) → compare b a ≡ flip (compare a b)
flip-compare a b = ground arith

compare-eq : (a b : ℕ) → compare a b ≡ Ordering.eq → a ≡ b
compare-eq a b h = ground arith

compare-lt :
    (a b c : ℕ) → compare a b ≡ Ordering.lt → compare b c ≡ Ordering.lt → compare a c ≡ Ordering.lt
compare-lt a b c h k = ground arith

flip-compare_bytes : (a b : Bytes) → compare_bytes b a ≡ flip (compare_bytes a b)
unfolding compare_bytes
flip-compare_bytes [] [] = refl
flip-compare_bytes [] (d ∷ ds) = refl
flip-compare_bytes (c ∷ cs) [] = refl
flip-compare_bytes (c ∷ cs) (d ∷ ds) =
    rw (flip-compare c d, flip-compare_bytes cs ds)
      (flip-tie_break (compare c d) (compare_bytes cs ds))

-- the three ways in which a comparison with a tie-break comes out
tie_break-lt :
    (a b : Ordering)
    → tie_break a b ≡ Ordering.lt
    → (a ≡ Ordering.lt) ⊎ ((a ≡ Ordering.eq) × (b ≡ Ordering.lt))
tie_break-lt Ordering.lt b h = inl refl
tie_break-lt Ordering.eq b h = inr (refl, h)
tie_break-lt Ordering.gt b h = cc

tie_break-eq :
    (a b : Ordering) → tie_break a b ≡ Ordering.eq → (a ≡ Ordering.eq) × (b ≡ Ordering.eq)
tie_break-eq Ordering.lt b h = cc
tie_break-eq Ordering.eq b h = (refl, h)
tie_break-eq Ordering.gt b h = cc

compare_bytes-eq : (a b : Bytes) → compare_bytes a b ≡ Ordering.eq → a ≡ b
unfolding compare_bytes
compare_bytes-eq [] [] h = refl
compare_bytes-eq [] (d ∷ ds) h = cc
compare_bytes-eq (c ∷ cs) [] h = cc
compare_bytes-eq (c ∷ cs) (d ∷ ds) h =
    let (e, es) = tie_break-eq (compare c d) (compare_bytes cs ds) h in
    cc (compare-eq c d e, compare_bytes-eq cs ds es)

compare_bytes_refl : (a : Bytes) → compare_bytes a a ≡ Ordering.eq
unfolding compare_bytes
compare_bytes_refl [] = refl
compare_bytes_refl (c ∷ cs) = rw (same c) (compare_bytes_refl cs)
  where
    same : (n : ℕ) → compare n n ≡ Ordering.eq
    same n = ground arith

-- If the first comparison is transitive and a tie of it can be put in, so is the pair of comparisons.
chain :
    (a b c x y z : Ordering)
    → (a ≡ Ordering.lt → b ≡ Ordering.lt → c ≡ Ordering.lt)
    → (a ≡ Ordering.eq → c ≡ b)
    → (b ≡ Ordering.eq → c ≡ a)
    → (x ≡ Ordering.lt → y ≡ Ordering.lt → z ≡ Ordering.lt)
    → tie_break a x ≡ Ordering.lt
    → tie_break b y ≡ Ordering.lt
    → tie_break c z ≡ Ordering.lt
chain Ordering.lt Ordering.lt c x y z both left right tie h k = rw (both refl refl) refl
chain Ordering.lt Ordering.eq c x y z both left right tie h k = rw (right refl) refl
chain Ordering.lt Ordering.gt c x y z both left right tie h k = cc
chain Ordering.eq Ordering.lt c x y z both left right tie h k = rw (left refl) refl
chain Ordering.eq Ordering.eq c x y z both left right tie h k = rw (left refl) (tie h k)
chain Ordering.eq Ordering.gt c x y z both left right tie h k = cc
chain Ordering.gt b c x y z both left right tie h k = cc

compare_bytes-lt :
    (a b c : Bytes)
    → compare_bytes a b ≡ Ordering.lt
    → compare_bytes b c ≡ Ordering.lt
    → compare_bytes a c ≡ Ordering.lt
unfolding compare_bytes
compare_bytes-lt [] (y ∷ b) (z ∷ c) h k = refl
compare_bytes-lt [] (y ∷ b) [] h k = cc
compare_bytes-lt [] [] c h k = cc
compare_bytes-lt (x ∷ a) [] c h k = cc
compare_bytes-lt (x ∷ a) (y ∷ b) [] h k = cc
compare_bytes-lt (x ∷ a) (y ∷ b) (z ∷ c) h k =
    chain (compare x y) (compare y z) (compare x z) (compare_bytes a b) (compare_bytes b c)
      (compare_bytes a c) (compare-lt x y z) (λ e. ap (λ n. compare n z) (compare-eq x y e))
      (λ e. ap (compare x) (sym (compare-eq y z e))) (compare_bytes-lt a b c) h k

-- `a` comes before `b` in the order of the lines
abbrev pub ◌≺◌ : Cursor → Cursor → Type 0
a ≺ b = compare_to a b ≡ Ordering.lt

pub ≺_trans : (a b c : Cursor) → a ≺ b → b ≺ c → a ≺ c
unfolding compare_to
≺_trans a b c =
    chain (compare a.at b.at) (compare b.at c.at) (compare a.at c.at) _ _ _
      (compare-lt a.at b.at c.at) (λ e. ap (λ n. compare n c.at) (compare-eq a.at b.at e))
      (λ e. ap (compare a.at) (sym (compare-eq b.at c.at e)))
      (chain (compare_bytes a.file b.file) (compare_bytes b.file c.file)
        (compare_bytes a.file c.file) (compare a.seq b.seq) (compare b.seq c.seq)
        (compare a.seq c.seq) (compare_bytes-lt a.file b.file c.file)
        (λ e. ap (λ f. compare_bytes f c.file) (compare_bytes-eq a.file b.file e))
        (λ e. ap (compare_bytes a.file) (sym (compare_bytes-eq b.file c.file e)))
        (compare-lt a.seq b.seq c.seq))

pub flip-compare_to : (a b : Cursor) → compare_to b a ≡ flip (compare_to a b)
unfolding compare_to
flip-compare_to a b =
    rw
      (
        flip-compare a.at b.at,
        flip-compare_bytes a.file b.file,
        flip-compare a.seq b.seq,
        flip-tie_break (compare_bytes a.file b.file) (compare a.seq b.seq),
      )
      (flip-tie_break (compare a.at b.at)
        (tie_break (compare_bytes a.file b.file) (compare a.seq b.seq)))

-- a line that comes before another is not later
pub ≺-le : (a b : Cursor) → a ≺ b → a.at ≤ b.at
unfolding compare_to
≺-le a b h = elim (tie_break-lt (compare a.at b.at) _ h) [
  | inl e ↦ le_of_lt a.at b.at e
  | inr e ↦ le_of_eq a.at b.at e.0
]
  where
    le_of_lt : (m n : ℕ) → compare m n ≡ Ordering.lt → m ≤ n
    le_of_lt m n e = ground arith

    le_of_eq : (m n : ℕ) → compare m n ≡ Ordering.eq → m ≤ n
    le_of_eq m n e = omega (arith, compare-eq m n e)

-- lines of different files are not at the same place
compare_to_ne :
    (a b : Cursor) → compare_bytes a.file b.file ≢ Ordering.eq → compare_to a b ≢ Ordering.eq
unfolding compare_to
compare_to_ne a b h e =
    h
      (tie_break-eq (compare_bytes a.file b.file) (compare a.seq b.seq)
        (tie_break-eq (compare a.at b.at) _ e).1).0

-- the order of a walk, forwards behind a cursor and backwards otherwise
abbrev pub Ahead : Option Cursor → Item → Item → Type 0
Ahead (some after) a b = cursor_of a ≺ cursor_of b
Ahead none a b = cursor_of b ≺ cursor_of a

pub Ahead-trans :
    (after : Option Cursor) (a b c : Item) → Ahead after a b → Ahead after b c → Ahead after a c
Ahead-trans (some after) a b c h k = ≺_trans (cursor_of a) (cursor_of b) (cursor_of c) h k
Ahead-trans none a b c h k = ≺_trans (cursor_of c) (cursor_of b) (cursor_of a) k h

-- two files that are not the same
abbrev pub Differ : Bytes → Bytes → Type 0
Differ f g = compare_bytes f g ≢ Ordering.eq

pub Differ-sym : (f g : Bytes) → Differ f g → Differ g f
Differ-sym f g h e = h (flip-compare_bytes g f ∙ ap flip e)

-- the test that picks a head, with whether the walk is forwards
abbrev pub first_of : Bool → Ordering → Bool
first_of forwards o = if forwards then is_lt o else not (is_lt o)

first_of-cases :
    (after : Option Cursor) (a b : Item) (o : Ordering)
    → compare_to (cursor_of a) (cursor_of b) ≡ o
    → compare_to (cursor_of b) (cursor_of a) ≡ flip o
    → o ≢ Ordering.eq
    → ((first_of (is_some after) o ≡ true) × Ahead after a b)
      ⊎ ((first_of (is_some after) o ≡ false) × Ahead after b a)
first_of-cases (some after) a b Ordering.lt e f ne = inl (refl, e)
first_of-cases (some after) a b Ordering.gt e f ne = inr (refl, f)
first_of-cases (some after) a b Ordering.eq e f ne = absurd (ne refl)
first_of-cases none a b Ordering.lt e f ne = inr (refl, e)
first_of-cases none a b Ordering.gt e f ne = inl (refl, f)
first_of-cases none a b Ordering.eq e f ne = absurd (ne refl)

-- heads of different files are told apart by `first`
pub first-cases :
    (q : Query) (a b : Item)
    → Differ (a.0).rel (b.0).rel
    → ((first q a b ≡ true) × Ahead q.after a b) ⊎ ((first q a b ≡ false) × Ahead q.after b a)
unfolding first
first-cases q a b h =
    first_of-cases q.after a b (compare_to (cursor_of a) (cursor_of b)) refl
      (flip-compare_to (cursor_of a) (cursor_of b)) (compare_to_ne (cursor_of a) (cursor_of b) h)
