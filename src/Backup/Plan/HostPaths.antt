-- ===== src/Backup/Plan/HostPaths.antt =====
-- service/backup_inventory.go: no path of the host is listed without a reason to skip it.
use casa_os_app_management.Prelude.{
  String, ◌≡◌, inl, inr, refl, Bool, true, false, not, ◌&&◌, ◌||◌, List, [], ◌∷◌, any, starts_with,
  arith, ◌==◌, if◌then◌else◌, Bool-cases, clean,
}
use casa_os_app_management.Backup.Inventory.{is_kernel, host_path_skip_reason}

-- what is the host's own and no app's: these paths, and all that is in these folders
abbrev pub host_paths : List String
host_paths =
    "" ∷ "." ∷ "/" ∷ "/var/run/docker.sock" ∷ "/run/docker.sock" ∷ "/etc/localtime"
    ∷ "/etc/timezone" ∷ "/dev" ∷ "/sys" ∷ "/proc" ∷ []

abbrev pub host_folders : List String
host_folders = "/dev/" ∷ "/sys/" ∷ "/proc/" ∷ []

unfoldable pub is_of_host : String → Bool
is_of_host path =
    any (λ p. clean path == p) host_paths || any (λ f. starts_with (clean path) f) host_folders

-- the reason that four tests give
abbrev reason_of : Bool → Bool → Bool → Bool → String
reason_of whole socket clock kernel =
    if whole
    then "the whole filesystem is not an app's data"
    else if socket
    then "the Docker socket is a door, not data"
    else if clock
    then "the host's clock belongs to the host"
    else if kernel
    then "kernel interface, with no contents to copy"
    else ""

no_reason :
    (whole socket clock kernel : Bool)
    → (reason_of whole socket clock kernel == "") ≡ true
    → (whole ≡ false) × (socket ≡ false) × (clock ≡ false) × (kernel ≡ false)
no_reason true socket clock kernel h = cc
no_reason false true clock kernel h = cc
no_reason false false true kernel h = cc
no_reason false false false true h = cc
no_reason false false false false h = (refl, refl, refl, refl)

-- the tests of the paths and folders one after the other, from those that go together
all_fail :
    (a b c d e f g h i j k l m : Bool)
    → (a || (b || c)) ≡ false
    → (d || e) ≡ false
    → (f || g) ≡ false
    → ((h || k) || ((i || l) || (j || m))) ≡ false
    → ((a || (b || (c || (d || (e || (f || (g || (h || (i || (j || false))))))))))
        || (k || (l || (m || false))))
      ≡ false
all_fail a b c d e f g h i j k l m whole socket clock kernel = ground arith

-- nothing of the host is listed without a reason to skip it
is_of_host-not_skipped :
    (path : String) → (host_path_skip_reason path == "") ≡ true → is_of_host path ≡ false
unfolding host_path_skip_reason is_of_host
is_of_host-not_skipped path none_given =
    let p = clean path in
    let (whole, socket, clock, kernel) =
      no_reason (p == "" || (p == "." || p == "/"))
        (p == "/var/run/docker.sock" || p == "/run/docker.sock")
        (p == "/etc/localtime" || p == "/etc/timezone") (is_kernel p) none_given in
    all_fail (p == "") (p == ".") (p == "/") (p == "/var/run/docker.sock") (p == "/run/docker.sock")
      (p == "/etc/localtime") (p == "/etc/timezone") (p == "/dev") (p == "/sys") (p == "/proc")
      (starts_with p "/dev/") (starts_with p "/sys/") (starts_with p "/proc/") whole socket clock
      kernel

pub listed-path :
    (path : String)
    → (path == "") ≡ false
    → (not (host_path_skip_reason path == "") || (not (path == "") && not (is_of_host path))) ≡ true
listed-path path h = elim (Bool-cases (host_path_skip_reason path == "")) [
  | inl e ↦ rw (e, h, is_of_host-not_skipped path e) refl
  | inr e ↦ rw e refl
]
