-- ===== src/GitApps/Signature.antt =====
-- service/git_webhook_signature.go: who signed a delivery of a forge, and what it asks for.
--
-- A header is what `header.Values` gives of a name. A text is a list of bytes where it is signed or
-- measured. HMAC-SHA256 is a parameter, a function of the secret and the body.
pub mod Laws
mod Examples
use casa_os_app_management.Prelude.{
  ℕ, zero, suc, ◌+◌, ◌-◌, ◌*◌, ◌/◌, ◌%◌, ◌^◌, ◌≤◌, ◌<◌, String, ◌≡◌, ◌≢◌, ◌↔◌, ◌⊎◌, inl, inr, refl,
  sym, ap, subst, ◌∙◌, Bool, true, false, not, ◌&&◌, ◌||◌, Option, none, some, List, [], ◌∷◌, ◌++◌,
  map, reverse, arith, eq_iff, eq_refl, ◌==◌, ltb, leb, ◌=ℕ◌, if◌then◌else◌, leb→le, ltb→lt,
  Bool-cases, Option-cases, length, take, drop, length-append, length-take, length-drop,
  take-append-drop, count, any, keep, count-append, count-le-length, any-pos, any-append,
  any-reverse, any_none, get_elem?, set, count-set, count-pos, drop-set, length-set, drop-append,
  drop_step, get_elem?-drop, get_elem?_in, get_elem?-append, get_elem?_lt, Sub, nil, Sub-snoc,
  Sub-tail, Sub-delete, snoc-ne-nil, All, All-append, All-map, All-zip, ◌<>◌, starts_with, clean,
  clean-not_empty, join_path, base, dir, show, show_inj, str_le, codes, str_le_total, str_le_trans,
  str_le_antisym, insert, insertion_sort, IsSorted, insertion_sort-IsSorted, count-insertion_sort,
  length-insertion_sort, sum_by-insertion_sort, any-insertion_sort, All-insertion_sort, sum_by,
  sum_by-append, sum_by-keep, count-keep, All-keep, All-keep_of, All-tail_of_append,
  All-head_of_append,
}
use casa_os_app_management.Prelude.Map
use casa_os_app_management.Prelude.Map.{
  Map, get-assign, get-delete, keys, IsMap, IsMap-assign, IsMap-delete, any-keys, count-keys,
}

pub data Forge : Type 0 where
  github gitea forgejo gogs gitlab unknown : Forge

pub data Action : Type 0 where
  check pong ignored : Action

-- the names of a forge's two headers
pub record ForgeHeaders : Type 0 where
  pub forge : Forge
  pub event : String
  pub signature : String

abbrev pub git_webhook_forges : List ForgeHeaders
git_webhook_forges =
    record { forge = forgejo; event = "X-Forgejo-Event"; signature = "X-Forgejo-Signature" }
    ∷ record { forge = gitea; event = "X-Gitea-Event"; signature = "X-Gitea-Signature" }
    ∷ record { forge = gogs; event = "X-Gogs-Event"; signature = "X-Gogs-Signature" }
    ∷ record { forge = gitlab; event = "X-Gitlab-Event"; signature = "X-Gitlab-Token" }
    ∷ record { forge = github; event = "X-GitHub-Event"; signature = "X-Hub-Signature-256" }
    ∷ []

abbrev pub Header : Type 0
Header = String → List (List ℕ)

abbrev pub git_webhook_event_cap : ℕ
git_webhook_event_cap = 64

-- bytes compared whole
abbrev pub bytes_equal : List ℕ → List ℕ → Bool
bytes_equal [] [] = true
bytes_equal [] (y ∷ ys) = false
bytes_equal (x ∷ xs) [] = false
bytes_equal (x ∷ xs) (y ∷ ys) = x =ℕ y && bytes_equal xs ys

-- `strings.CutPrefix`
unfoldable pub cut_prefix : List ℕ → List ℕ → Option (List ℕ)
cut_prefix [] s = some s
cut_prefix (p ∷ ps) [] = none
cut_prefix (p ∷ ps) (c ∷ s) = let rest = cut_prefix ps s in if p =ℕ c then rest else none

unfoldable pub hex_digit : ℕ → Option ℕ
hex_digit c =
    if leb b'0' c && leb c b'9'
    then some (c - b'0')
    else if leb b'a' c && leb c b'f'
    then some (c - b'a' + 10)
    else if leb b'A' c && leb c b'F'
    then some (c - b'A' + 10)
    else none

abbrev pub hex_byte : Option ℕ → Option ℕ → Option (List ℕ) → Option (List ℕ)
hex_byte none b rest = none
hex_byte (some a) none rest = none
hex_byte (some a) (some b) none = none
hex_byte (some a) (some b) (some bytes) = some ((a * 16 + b) ∷ bytes)

-- `hex.DecodeString`, `none` for its errors
unfoldable pub hex_decode : List ℕ → Option (List ℕ)
unfolding hex_digit
hex_decode [] = some []
hex_decode (a ∷ []) = none
hex_decode (a ∷ b ∷ s) = hex_byte (hex_digit a) (hex_digit b) (hex_decode s)

abbrev pub decoded_is : List ℕ → Option (List ℕ) → Bool
decoded_is want none = false
decoded_is want (some got) = bytes_equal got want

abbrev pub hexed_is : List ℕ → Option (List ℕ) → Bool
hexed_is want none = false
hexed_is want (some value) = decoded_is want (hex_decode value)

unfoldable pub git_webhook_signature_valid : String → List ℕ → List ℕ → List ℕ → Bool
unfolding cut_prefix hex_decode
git_webhook_signature_valid name value want secret =
    if name == "X-Gitlab-Token"
    then bytes_equal value secret
    else if name == "X-Hub-Signature-256"
    then hexed_is want (cut_prefix (codes "sha256=") value)
    else hexed_is want (some value)

-- the loop of `gitWebhookSigned` over the values of one header; `none` is its early return
unfoldable pub signed_by_values : String → List ℕ → List ℕ → Bool → List (List ℕ) → Option Bool
signed_by_values name want secret signed [] = some signed
signed_by_values name want secret signed (value ∷ values) =
    let rest = signed_by_values name want secret true values in
    if not (git_webhook_signature_valid name value want secret) then none else rest

abbrev pub unless_returned : Option Bool → (Bool → Bool) → Bool
unless_returned none next = false
unless_returned (some signed) next = next signed

-- the loop over the forges
unfoldable pub signed_by : Header → List ℕ → List ℕ → Bool → List ForgeHeaders → Bool
signed_by header want secret signed [] = signed
signed_by header want secret signed (f ∷ fs) =
    unless_returned (signed_by_values f.signature want secret signed (header f.signature))
      (λ signed'. signed_by header want secret signed' fs)

unfoldable pub git_webhook_signed : (List ℕ → List ℕ → List ℕ) → Header → List ℕ → List ℕ → Bool
git_webhook_signed hmac header body secret =
    if length secret =ℕ 0
    then false
    else signed_by header (hmac secret body) secret false git_webhook_forges

abbrev pub first_value : Forge → List (List ℕ) → Option (Forge × List ℕ) → Option (Forge × List ℕ)
first_value forge [] next = next
first_value forge (v ∷ vs) next = some (forge, v)

-- the first forge whose header, of those that `name` takes, has a value, and that value
unfoldable pub first_forge :
    (ForgeHeaders → String) → Header → List ForgeHeaders → Option (Forge × List ℕ)
first_forge name header [] = none
first_forge name header (f ∷ fs) =
    first_value f.forge (header (name f)) (first_forge name header fs)

abbrev pub forge_or_unknown : Option (Forge × List ℕ) → Forge
forge_or_unknown none = unknown
forge_or_unknown (some (f, v)) = f

abbrev pub is_ping : Forge → List ℕ → Bool
is_ping github event = bytes_equal event (codes "ping")
is_ping gitea event = false
is_ping forgejo event = false
is_ping gogs event = false
is_ping gitlab event = false
is_ping unknown event = false

abbrev pub is_push : Forge → List ℕ → Bool
is_push gitlab event =
    bytes_equal event (codes "Push Hook") || bytes_equal event (codes "Tag Push Hook")
is_push github event = bytes_equal event (codes "push")
is_push gitea event = bytes_equal event (codes "push")
is_push forgejo event = bytes_equal event (codes "push")
is_push gogs event = bytes_equal event (codes "push")
is_push unknown event = bytes_equal event (codes "push")

-- the last switch of `gitWebhookEvent`
abbrev pub action_of : Forge → List ℕ → Action
action_of forge event =
    if is_ping forge event then pong else if is_push forge event then check else ignored

abbrev pub event_of : Header → Option (Forge × List ℕ) → Forge × List ℕ × Action
event_of header none =
    (forge_or_unknown (first_forge (λ f. f.signature) header git_webhook_forges), [], check)
event_of header (some (forge, event)) =
    let event' : List ℕ =
      if ltb git_webhook_event_cap (length event)
      then take git_webhook_event_cap event
      else event in
    (forge, event', action_of forge event')

unfoldable pub git_webhook_event : Header → Forge × List ℕ × Action
git_webhook_event header = event_of header (first_forge (λ f. f.event) header git_webhook_forges)
