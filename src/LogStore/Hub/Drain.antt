-- ===== src/LogStore/Hub/Drain.antt =====
-- pkg/logstore/hub.go: the two locked parts of `drain` keep the invariant of a feed.
use casa_os_app_management.Prelude.{
  ℕ, suc, ◌+◌, ◌-◌, ◌^◌, ◌≤◌, ◌<◌, ◌≡◌, inl, inr, refl, subst, Bool, true, false, Option, none,
  some, List, [], ◌∷◌, ◌++◌, arith, ltb, ◌=ℕ◌, if◌then◌else◌, Bool-cases, length, drop,
  length-append, length-drop, get_elem?, set, drop-set, length-set, drop_step, get_elem?_lt, Sub,
}
use mathlib.Core.List.{append_assoc, append-nil}
use native.Mathlib.Numerals.{add-one}
use casa_os_app_management.LogStore.Hub.{Message, blank, finish, wait, lag, item, pick, pop, settle}
use casa_os_app_management.LogStore.Hub.Steps.{Feed, pending, take_offer, OfferOk, Inv}

none_left {ℓ} : {A : Type ℓ} (xs : List A) → length xs ≡ 0 → xs ≡ []
none_left [] h = refl
none_left (x ∷ xs) h = absurd (omega arith)

module _ {Matcher Line Event : Type 0} (f : Feed Matcher Line Event) (v : Inv f) where
  pub pick-Inv : Inv (record f { offer = pick f.sub })
  unfolding pick
  pick-Inv = record {
    core = record {
      fits = v.core.fits;
      counted = v.core.counted;
      popped_range = v.core.popped_range;
      in_order = v.core.in_order;
      offer_ok = offer_ok;
    };
    small = v.small;
    short = v.short;
  }
    where
      found :
          (o : Option (Message Line Event))
          → get_elem? f.sub.q f.sub.head ≡ o
          → f.sub.dropped ≡ 0
          → OfferOk
              (elim o [ none ↦ wait | some m ↦ item m f.sub.popped ])
              (record f { offer = pick f.sub })
      found none e z = tt
      found (some m) e z = (
        omega (arith, v.core.popped_range),
        v.core.popped_range,
        (λ _. e),
        λ p. absurd (omega arith),
      )

      choose :
          (closed behind : Bool)
          → ltb 0 f.sub.dropped ≡ behind
          → OfferOk
              (if closed
                then finish
                else if behind
                then lag f.sub.dropped
                else elim (get_elem? f.sub.q f.sub.head) [
                  | none ↦ wait
                  | some m ↦ item m f.sub.popped
                ])
              (record f { offer = pick f.sub })
      choose true behind e = tt
      choose false true e = omega arith
      choose false false e = found (get_elem? f.sub.q f.sub.head) refl (ground arith)

      offer_ok : OfferOk (pick f.sub) (record f { offer = pick f.sub })
      offer_ok = choose f.sub.closed (ltb 0 f.sub.dropped) refl

  pub lag-Inv : (n : ℕ) → n ≤ f.sub.dropped → Inv (take_offer (lag n) f)
  unfolding settle
  lag-Inv n ok = record {
    core = record {
      fits = v.core.fits;
      counted = omega (arith, v.core.counted);
      popped_range = v.core.popped_range;
      in_order = v.core.in_order;
      offer_ok = tt;
    };
    small = v.small;
    short = v.short;
  }

  module _ (m : Message Line Event) (id : ℕ) (ok : OfferOk (item m id) f)
      (few : length f.accepted < 2 ^ 64) where
    dropped_few : f.sub.dropped < 2 ^ 64
    dropped_few = omega (arith, v.core.counted)

    late-Inv :
        0 < f.sub.dropped
        → Inv (record f {
          sub = record (f.sub) { dropped = f.sub.dropped - 1 };
          offer = wait;
          received = f.received ++ m ∷ [];
        })
    late-Inv p = record {
      core = record {
        fits = v.core.fits;
        counted = omega (arith, v.core.counted, length-append f.received (m ∷ []));
        popped_range = v.core.popped_range;
        in_order = rw (append_assoc f.received (m ∷ []) (pending f.sub)) (ok.3 p);
        offer_ok = tt;
      };
      small = v.small;
      short = v.short;
    }

    pop-Inv :
        f.sub.dropped ≡ 0
        → Inv (record f { sub = pop f.sub; offer = wait; received = f.received ++ m ∷ [] })
    unfolding pop
    pop-Inv z =
        let oldest = ok.2 z in
        let inside = get_elem?_lt f.sub.q f.sub.head oldest in
        let rest = drop (suc f.sub.head) f.sub.q in
        let order : Sub (f.received ++ m ∷ rest) f.accepted =
          subst (λ p. Sub (f.received ++ p) f.accepted) (drop_step f.sub.q f.sub.head oldest)
            v.core.in_order in
        let size = length-set f.sub.q f.sub.head blank in
        elim (Bool-cases (f.sub.head + 1 =ℕ length (set f.sub.q f.sub.head blank))) [
          | inl last ↦
              let empty : rest ≡ [] =
                none_left rest (ground (arith, length-drop (suc f.sub.head) f.sub.q, size)) in
              rw last (record {
                core = record {
                  fits = omega arith;
                  counted = ground (arith, v.core.counted, size, length-append f.received (m ∷ []));
                  popped_range = omega arith;
                  in_order =
                      rw (append-nil (f.received ++ m ∷ []))
                        (subst (λ p. Sub (f.received ++ m ∷ p) f.accepted) empty order);
                  offer_ok = tt;
                };
                small = omega arith;
                short = omega arith;
              })
          | inr more ↦ rw more (record {
            core = record {
              fits = omega (arith, size, inside);
              counted =
                  omega (arith, v.core.counted, size, inside, length-append f.received (m ∷ []));
              popped_range = omega arith;
              in_order =
                  rw
                    (
                      add-one,
                      drop-set f.sub.q f.sub.head blank,
                      append_assoc f.received (m ∷ []) rest,
                    )
                    order;
              offer_ok = tt;
            };
            small = omega (arith, v.small, size);
            short = omega (arith, v.short, size);
          })
        ]

    pub item-Inv : Inv (take_offer (item m id) f)
    unfolding settle
    item-Inv = elim (Bool-cases (f.sub.popped =ℕ id)) [
      | inl there ↦
          let z : f.sub.dropped ≡ 0 = ground (arith, ok.0, ok.1, dropped_few) in
          let inside : ltb f.sub.head (length f.sub.q) ≡ true =
            ground (arith, get_elem?_lt f.sub.q f.sub.head (ok.2 z)) in
          rw (there, inside) (pop-Inv z)
      | inr gone ↦ rw gone (late-Inv (ground (arith, ok.0, ok.1, dropped_few)))
    ]
