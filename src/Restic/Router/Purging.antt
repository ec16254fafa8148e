-- ===== src/Restic/Router/Purging.antt =====
-- pkg/restic/router.go: what Purge leaves.
use casa_os_app_management.Prelude.{
  String, ◌≡◌, refl, sym, ap, subst, ◌∙◌, Bool, true, false, ◌&&◌, ◌||◌, Option, none, some, arith,
  if◌then◌else◌,
}
use casa_os_app_management.Restic.Router.{Answer, Router, is_none, is_not_found, purge, purge_with}

module _ {W E File Bytes : Type 0} (says_directory_not_found is_nothing_held : E → Bool)
    (r : Router W E File Bytes) (in_repository is_stamped : String → String → W → Bool) where
  -- What the two engines' own calls do to one run: where the repository is asked to forget it and
  -- answers, it was there if it was forgotten, then is not, and the stamped copies are as they were;
  -- where rclone purges it, or says that there is no such folder, no stamped copy is left, and the
  -- repository is as it was.
  pub record DeletionLaws : Type 0 where
    pub forgets :
        (name remote : String) (w w' : W) (was : Bool)
        → r.restic.forget name remote w ≡ ((was, none), w')
        → (in_repository name remote w ≡ was)
          × ((in_repository name remote w' ≡ false)
              × (is_stamped name remote w' ≡ is_stamped name remote w))
    pub purges :
        (name remote : String) (w w' : W) (err : Option E)
        → r.legacy.purge name remote w ≡ (err, w')
        → (is_none err || is_not_found says_directory_not_found err) ≡ true
        → (is_stamped name remote w' ≡ false)
          × (in_repository name remote w' ≡ in_repository name remote w)

  left_out-fine :
      (err : Option E)
      → (if is_not_found says_directory_not_found err then none else err) ≡ none
      → (is_none err || is_not_found says_directory_not_found err) ≡ true
  left_out-fine none h = refl
  left_out-fine (some e) h = ground (arith, h)

  -- the same for what `Purge` does once the repository has answered
  abbrev pub AreGone : String → String → W → Type 0
  AreGone name remote w = (in_repository name remote w ≡ false) × (is_stamped name remote w ≡ false)

  purge_with-AreGone :
      (laws : DeletionLaws) (name remote : String) (w w' : W) (answer : Answer E Bool × W)
      → (in_repository name remote w && is_stamped name remote w) ≡ false
      → r.restic.forget name remote w ≡ answer
      → purge_with says_directory_not_found is_nothing_held r name remote answer ≡ (none, w')
      → AreGone name remote w'
  purge_with-AreGone laws name remote w w' ((was, some e), w₁) one forgot purged =
      ground (arith, ap (λ a. a.0) purged)
  purge_with-AreGone laws name remote w w' ((true, none), w₁) one forgot purged =
      let (was, (gone, same)) = laws.forgets name remote w w₁ true forgot in
      subst (AreGone name remote) (ap (λ a. a.1) purged) (gone, ground (arith, was, same, one))
  purge_with-AreGone laws name remote w w' ((false, none), w₁) one forgot purged =
      let (was, (gone, same)) = laws.forgets name remote w w₁ false forgot in
      let (err, w₂) = r.legacy.purge name remote w₁ in
      let fine : (is_none err || is_not_found says_directory_not_found err) ≡ true =
        left_out-fine err (ap (λ a. a.0) purged) in
      let (none_left, rest) = laws.purges name remote w₁ w₂ err refl fine in
      subst (AreGone name remote) (ap (λ a. a.1) purged) (rest ∙ gone, none_left)

  -- Engines that do that, at a destination whose repository's key the box holds, and a run that does not
  -- live in both: once the router has purged it without an error, it is in neither.
  pub purge_lem :
      (laws : DeletionLaws) (name remote : String) (w w' : W)
      → r.restic.held name w ≡ true
      → (in_repository name remote w && is_stamped name remote w) ≡ false
      → purge says_directory_not_found is_nothing_held r name remote w ≡ (none, w')
      → (in_repository name remote w' ≡ false) × (is_stamped name remote w' ≡ false)
  unfolding purge
  purge_lem laws name remote w w' held one e =
      purge_with-AreGone laws name remote w w' (r.restic.forget name remote w) one refl
        (sym (rw held refl) ∙ e)
