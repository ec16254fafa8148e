-- ===== src/LogStore/Line/Examples.antt =====
-- Lines and names tried out.
use casa_os_app_management.Prelude.{
  ℕ, zero, suc, ◌≤◌, ◌<◌, ◌≡◌, ◌⊎◌, refl, true, false, [], ◌∷◌, ◌++◌, ◌==◌, length, take, codes,
}
use casa_os_app_management.LogStore.Line.{
  Bytes, max_line_bytes, truncated_mark, truncate, safe_name, replace_unsafe, format_line,
  replace_newlines,
}
use casa_os_app_management.LogStore.Line.Laws.{
  starts_rune, is_safe_text, truncate_lem, safe_name_lem,
}

safe_name_test :
    (safe_name ".." ≡ "_") × ((safe_name "a/../b c" ≡ "a_.._b_c") × (safe_name "" ≡ "_"))
unfolding safe_name replace_unsafe
safe_name_test = (refl, (refl, refl))

safe_name_lem_example :
    (is_safe_text (safe_name "../a b") ≡ true)
    × ((safe_name "../a b" == "") ≡ false)
    × ((safe_name "../a b" == ".") ≡ false)
    × ((safe_name "../a b" == "..") ≡ false)
    × (safe_name (safe_name "../a b") ≡ safe_name "../a b")
safe_name_lem_example = safe_name_lem "../a b"

abbrev euros : ℕ → Bytes
euros zero = []
euros (suc n) = 226 ∷ 130 ∷ 172 ∷ euros n

-- 18,000 bytes, of which the limit falls into a rune
abbrev long : Bytes
long = euros 6000

truncate_lem_example :
    ((length long ≤ max_line_bytes) × (truncate long ≡ long))
    ⊎ ((cut : ℕ) × (max_line_bytes < length long)
        × (cut ≤ max_line_bytes)
        × (starts_rune long cut ≡ true)
        × (truncate long ≡ take cut long ++ truncated_mark))
truncate_lem_example = truncate_lem long

format_line_test :
    format_line (λ t. codes "T") 7 b'o' (codes "a" ++ 10 ∷ codes "b") ≡ codes "T o a b" ++ 10 ∷ []
unfolding format_line replace_newlines
format_line_test = refl
