-- ===== src/LogStore/Hub/Publish.antt =====
-- pkg/logstore/hub.go: a publish keeps the invariant of a feed.
use casa_os_app_management.Prelude.{
  ℕ, zero, suc, ◌+◌, ◌-◌, ◌*◌, ◌<◌, ◌≡◌, ◌⊎◌, inl, inr, refl, ap, subst, ◌∙◌, true, some, List, [],
  ◌∷◌, ◌++◌, arith, leb, ◌=ℕ◌, Bool-cases, length, drop, length-append, length-drop, get_elem?, set,
  drop-set, length-set, drop-append, drop_step, get_elem?-drop, get_elem?_in, get_elem?-append,
  get_elem?_lt, Sub, Sub-snoc, Sub-delete,
}
use mathlib.Core.List.{append_assoc}
use native.Mathlib.Numerals.{add-one}
use casa_os_app_management.LogStore.Hub.{
  Message, queue_size, u64, Subscriber, blank, make_room, compact, enqueue, Offer, finish, wait,
  lag, item,
}
use casa_os_app_management.LogStore.Hub.Steps.{Feed, pending, accept, OfferOk, Core, Inv}

append_snoc {ℓ} :
    {A : Type ℓ} (xs : List A) (x : A) (ys : List A) → xs ++ x ∷ ys ≡ (xs ++ x ∷ []) ++ ys
append_snoc [] x ys = refl
append_snoc (w ∷ xs) x ys = ap (◌∷◌ w) (append_snoc xs x ys)

zero_or_pos : (n : ℕ) → (n ≡ 0) ⊎ (0 < n)
zero_or_pos zero = inl refl
zero_or_pos (suc n) = inr (omega arith)

module _ {Matcher Line Event : Type 0} (f : Feed Matcher Line Event) (c : Core f) where
  module _ (x : Message Line Event) (oldest : get_elem? f.sub.q f.sub.head ≡ some x) where
    abbrev dropped_one : Feed Matcher Line Event
    dropped_one = record f {
      sub = record (f.sub) {
        q = set f.sub.q f.sub.head blank;
        head = f.sub.head + 1;
        popped = u64 (f.sub.popped + 1);
        dropped = f.sub.dropped + 1;
      };
    }

    rest_lem : drop (f.sub.head + 1) (set f.sub.q f.sub.head blank) ≡ drop (suc f.sub.head) f.sub.q
    rest_lem = rw add-one (drop-set f.sub.q f.sub.head blank)

    pending_lem : pending f.sub ≡ x ∷ drop (suc f.sub.head) f.sub.q
    pending_lem = drop_step f.sub.q f.sub.head oldest

    shorter : Sub (f.received ++ pending dropped_one.sub) f.accepted
    shorter = rw rest_lem (
        Sub-delete f.received x (drop (suc f.sub.head) f.sub.q)
          (subst (λ p. Sub (f.received ++ p) f.accepted) pending_lem c.in_order))

    still_there :
        (m : Message Line Event)
        → Sub (f.received ++ m ∷ x ∷ drop (suc f.sub.head) f.sub.q) f.accepted
        → Sub (f.received ++ m ∷ drop (suc f.sub.head) f.sub.q) f.accepted
    still_there m s = rw (append_snoc f.received m (drop (suc f.sub.head) f.sub.q)) (
        Sub-delete (f.received ++ m ∷ []) x (drop (suc f.sub.head) f.sub.q)
          (rw (← append_snoc f.received m (x ∷ drop (suc f.sub.head) f.sub.q)) s))

    offer_kept : (o : Offer Line Event) → OfferOk o f → OfferOk o dropped_one
    offer_kept finish ok = tt
    offer_kept wait ok = tt
    offer_kept (lag n) ok = omega arith
    offer_kept (item m id) ok = (
      omega arith,
      ok.1,
      (λ z. absurd (omega arith)),
      λ _. elim (zero_or_pos f.sub.dropped) [
        | inl z ↦
            let head_is : x ≡ m = ground (arith, oldest, ok.2 z) in
            rw (← head_is, rest_lem)
              (subst (λ p. Sub (f.received ++ p) f.accepted) pending_lem c.in_order)
        | inr p ↦
            rw rest_lem (
              still_there m
                (subst (λ p. Sub (f.received ++ m ∷ p) f.accepted) pending_lem (ok.3 p)))
      ],
    )

    dropped-Core : Core dropped_one
    dropped-Core = record {
      fits =
          omega
            (arith, length-set f.sub.q f.sub.head blank, get_elem?_lt f.sub.q f.sub.head oldest);
      counted = omega (
        arith,
        c.counted,
        length-set f.sub.q f.sub.head blank,
        get_elem?_lt f.sub.q f.sub.head oldest,
      );
      popped_range = omega arith;
      in_order = shorter;
      offer_ok = offer_kept f.offer c.offer_ok;
    }

module _ {Matcher Line Event : Type 0} (f : Feed Matcher Line Event) where
  with_sub : Subscriber Matcher Line Event → Feed Matcher Line Event
  with_sub s = record f { sub = s }

  -- a queue with room for one more message
  record Room (g : Feed Matcher Line Event) : Type 0 where
    core : Core g
    room : length g.sub.q - g.sub.head < queue_size
    short : length g.sub.q < 2 * queue_size

  make_room-Room : Inv f → Room (record f { sub = make_room f.sub })
  unfolding make_room
  make_room-Room v = elim (Bool-cases (length f.sub.q - f.sub.head =ℕ queue_size)) [
    | inl full ↦
        let (x, oldest) = get_elem?_in f.sub.q f.sub.head (ground arith) in
        rw full (record {
          core = dropped-Core f v.core x oldest;
          room = ground (arith, length-set f.sub.q f.sub.head blank);
          short = ground (arith, length-set f.sub.q f.sub.head blank, v.short);
        })
    | inr free ↦ rw free (record { core = v.core; room = ground (arith, v.small); short = v.short })
  ]

module _ {Matcher Line Event : Type 0} (f : Feed Matcher Line Event) (c : Core f) where
  compact_offer :
      (o : Offer Line Event)
      → OfferOk o f
      → OfferOk o (record f { sub = record (f.sub) { q = drop f.sub.head f.sub.q; head = 0 } })
  compact_offer finish ok = tt
  compact_offer wait ok = tt
  compact_offer (lag n) ok = ok
  compact_offer (item m id) ok =
      (ok.0, ok.1, (λ z. get_elem?-drop f.sub.q f.sub.head ∙ ok.2 z), ok.3)

  compact-Core : Core (record f { sub = compact f.sub })
  unfolding compact
  compact-Core = elim (Bool-cases (leb queue_size f.sub.head)) [
    | inl far ↦ rw far (record {
      fits = omega arith;
      counted = omega (arith, c.counted, length-drop f.sub.head f.sub.q);
      popped_range = c.popped_range;
      in_order = c.in_order;
      offer_ok = compact_offer f.offer c.offer_ok;
    })
    | inr near ↦ rw near c
  ]

  compact_sizes :
      (length (compact f.sub).q - (compact f.sub).head ≡ length f.sub.q - f.sub.head)
      × ((compact f.sub).head < queue_size)
  unfolding compact
  compact_sizes = (ground (arith, length-drop f.sub.head f.sub.q), ground arith)

  module _ (m : Message Line Event) where
    push_offer :
        (o : Offer Line Event)
        → OfferOk o f
        → OfferOk o (record f {
          sub = record (f.sub) { q = f.sub.q ++ m ∷ []; wake = true };
          accepted = f.accepted ++ m ∷ [];
        })
    push_offer finish ok = tt
    push_offer wait ok = tt
    push_offer (lag n) ok = ok
    push_offer (item x id) ok = (
      ok.0,
      ok.1,
      (λ z.
          get_elem?-append f.sub.q (m ∷ []) f.sub.head (get_elem?_lt f.sub.q f.sub.head (ok.2 z))
          ∙ ok.2 z),
      λ p.
          rw
            (
              drop-append f.sub.q (m ∷ []) f.sub.head c.fits,
              ← append_assoc f.received (x ∷ drop f.sub.head f.sub.q) (m ∷ []),
            )
            (Sub-snoc m (ok.3 p)),
    )

    push-Core : Core (record f {
      sub = record (f.sub) { q = f.sub.q ++ m ∷ []; wake = true };
      accepted = f.accepted ++ m ∷ [];
    })
    push-Core = record {
      fits = omega (arith, c.fits, length-append f.sub.q (m ∷ []));
      counted = omega (
        arith,
        c.counted,
        c.fits,
        length-append f.sub.q (m ∷ []),
        length-append f.accepted (m ∷ []),
      );
      popped_range = c.popped_range;
      in_order =
          rw
            (
              drop-append f.sub.q (m ∷ []) f.sub.head c.fits,
              ← append_assoc f.received (drop f.sub.head f.sub.q) (m ∷ []),
            )
            (Sub-snoc m c.in_order);
      offer_ok = push_offer f.offer c.offer_ok;
    }

module _ {Matcher Line Event : Type 0} (m : Message Line Event) (f : Feed Matcher Line Event) where
  pub accept-Inv : Inv f → Inv (accept m f)
  unfolding enqueue
  accept-Inv v =
      let made = make_room-Room f v in
      let f₁ = record f { sub = make_room f.sub } in
      let f₂ = record f { sub = compact (make_room f.sub) } in
      let sizes = compact_sizes f₁ made.core in
      let compacted = compact-Core f₁ made.core in
      record {
        core = push-Core f₂ compacted m;
        small = omega (arith, sizes, made.room, length-append f₂.sub.q (m ∷ []));
        short = omega (arith, sizes, made.room, length-append f₂.sub.q (m ∷ []), compacted.fits);
      }
