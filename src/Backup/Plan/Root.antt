-- ===== src/Backup/Plan/Root.antt =====
-- service/backup_plan.go: the root of one run on a destination.
use casa_os_app_management.Prelude.{
  ℕ, suc, ◌+◌, String, ◌≡◌, inl, inr, refl, ap, ◌∙◌, false, ◌&&◌, arith, ◌==◌, ◌=ℕ◌, if◌then◌else◌,
  Bool-cases, ◌<>◌,
}
use Prim.Native.Char.{Char, code}
use text.Mathlib.TextLemmas.{nil-append, cons-append}
use casa_os_app_management.Backup.Schedule.{is_space}

unfoldable pub trim_start : String → String
trim_start String.[] = ""
trim_start (String.◌∷◌ c s) = if is_space (code c) then trim_start s else String.◌∷◌ c s

abbrev pub end_with : Char → String → String
end_with c rest = if is_space (code c) && rest == "" then "" else String.◌∷◌ c rest

unfoldable pub trim_end : String → String
trim_end String.[] = ""
trim_end (String.◌∷◌ c s) = end_with c (trim_end s)

-- `strings.ReplaceAll` of one character
unfoldable pub replace_all : Char → Char → String → String
replace_all from to String.[] = ""
replace_all from to (String.◌∷◌ c s) =
    String.◌∷◌ (if code c =ℕ code from then to else c) (replace_all from to s)

-- `clean` of `RootFor`
unfoldable pub clean_name : String → String
unfolding trim_start trim_end replace_all
clean_name s =
    replace_all ":" "-" (replace_all "\\" "-" (replace_all "/" "-" (trim_end (trim_start s))))

unfoldable pub root_for : String → String → String
unfolding clean_name
root_for app stamp = clean_name app <> ("/" <> clean_name stamp)

-- how many slashes there are
abbrev pub slashes : String → ℕ
slashes String.[] = 0
slashes (String.◌∷◌ c s) = if code c =ℕ b'/' then suc (slashes s) else slashes s

slashes-append : (s t : String) → slashes (s <> t) ≡ slashes s + slashes t
slashes-append String.[] t = ap slashes (nil-append t) ∙ omega arith
slashes-append (String.◌∷◌ c s) t =
    ap slashes (cons-append c s t) ∙ ground (arith, slashes-append s t)

slashes-replace_slash : (s : String) → slashes (replace_all "/" "-" s) ≡ 0
unfolding replace_all
slashes-replace_slash String.[] = refl
slashes-replace_slash (String.◌∷◌ c s) = elim (Bool-cases (code c =ℕ b'/')) [
  | inl e ↦ rw e (slashes-replace_slash s)
  | inr e ↦ rw (e, e) (slashes-replace_slash s)
]

no_slash :
    (c : Char) (s : String)
    → slashes (String.◌∷◌ c s) ≡ 0
    → (slashes s ≡ 0) × ((code c =ℕ b'/') ≡ false)
no_slash c s h = ground (arith, h)

slashes-replace_all :
    (from : Char) (s : String) → slashes s ≡ 0 → slashes (replace_all from "-" s) ≡ 0
unfolding replace_all
slashes-replace_all from String.[] h = refl
slashes-replace_all from (String.◌∷◌ c s) h =
    let (tail, head) = no_slash c s h in
    elim (Bool-cases (code c =ℕ code from)) [
      | inl e ↦ rw e (slashes-replace_all from s tail)
      | inr e ↦ rw (e, head) (slashes-replace_all from s tail)
    ]

slashes-clean_name : (s : String) → slashes (clean_name s) ≡ 0
unfolding clean_name
slashes-clean_name s =
    slashes-replace_all ":" (replace_all "\\" "-" (replace_all "/" "-" (trim_end (trim_start s)))) (
      slashes-replace_all "\\" (replace_all "/" "-" (trim_end (trim_start s)))
        (slashes-replace_slash (trim_end (trim_start s))))

-- Whatever an app and a stamp are called, the root of a run is one folder in one folder: it has one slash.
pub root_for_lem : (app stamp : String) → slashes (root_for app stamp) ≡ 1
unfolding root_for
root_for_lem app stamp =
    slashes-append (clean_name app) ("/" <> clean_name stamp)
    ∙ omega (
      arith,
      slashes-append "/" (clean_name stamp),
      slashes-clean_name app,
      slashes-clean_name stamp,
    )
