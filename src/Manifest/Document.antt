-- ===== src/Manifest/Document.antt =====
-- internal/plugins/manifest/manifest.go: a decoded value, and the scan of a whole document for the
-- fields that would widen the privileges of a container.
pub mod Scanned
use llm_cache.Common.{
  ◌&&◌, ℕ, zero, suc, ◌+◌, ◌/◌, ◌%◌, ◌≡◌, ◌⊎◌, List, [], ◌∷◌, ◌++◌, Option, none, some, Bool, Str,
  str_key, Str-discrete, codes, ite, if◌then◌else◌, ◌==◌, ltb, map, filter, not,
}
use llm_cache.Common.Dict.{Dict, lookup}
use llm_cache.Common.Float.{Float64}
use llm_cache.Common.Sorting.{sort, str_less}
use llm_cache.Orchestrator.Guard.{eq_str}
use llm_cache.Orchestrator.Startup.{to_lower}

-- What YAML or JSON decodes to; an integer is the bits of an int64. `opaque` is a value of a type
-- that the code asks for nowhere, such as a time.
mutual
  pub data Value : Type 0 where
    null : Value
    boolean : Bool → Value
    integer : ℕ → Value
    number : Float64 → Value
    string : Str → Value
    sequence : Items → Value
    mapping : Fields → Value
    opaque : Value

  pub data Items : Type 0 where
    nil : Items
    cons : Value → Items → Items

  -- In the order in which Go's range hands the keys out.
  pub data Fields : Type 0 where
    end : Fields
    field : Str → Value → Fields → Fields

-- A message: the format, and its arguments.
pub record Text : Type 0 where
  pub format : Str
  pub arguments : List Value

abbrev pub plain : Str → Text
plain format = record { format = format; arguments = [] }

-- One problem: the path of the field, and what is wrong with it.
pub record Issue : Type 0 where
  pub path : Str
  pub message : Text

abbrev pub issue : Str → Str → Issue
issue path message = record { path = path; message = plain message }

-- The digits of a number in front of a string, for numbers below 10 ^ 20.
unfoldable pub digits : ℕ → ℕ → Str → Str
digits zero n s = s
digits (suc fuel) n s =
    let more = digits fuel (n / 10) ((n % 10 + 48) ∷ s) in if ltb n 10 then (n + 48) ∷ s else more

-- `%d` of a number that is not negative.
unfoldable pub decimal : ℕ → Str
unfolding digits
decimal n = digits 20 n []

abbrev pub dangerous_keys : Dict Str Str
dangerous_keys =
    (codes "privileged", codes "privileged containers are not allowed")
    ∷ (codes "hostnetwork", codes "host networking is not allowed")
    ∷ (codes "networkmode", codes "host networking is not allowed")
    ∷ (codes "hostpid", codes "the host PID namespace is not allowed")
    ∷ (codes "pid", codes "the host PID namespace is not allowed")
    ∷ (codes "hostipc", codes "the host IPC namespace is not allowed")
    ∷ (codes "ipc", codes "the host IPC namespace is not allowed")
    ∷ (codes "volumes", codes "host filesystem mounts are not allowed")
    ∷ (codes "volume", codes "host filesystem mounts are not allowed")
    ∷ (codes "mounts", codes "host filesystem mounts are not allowed")
    ∷ (codes "hostpath", codes "host filesystem mounts are not allowed")
    ∷ (codes "binds", codes "host filesystem mounts are not allowed")
    ∷ (codes "devices", codes "host devices are not allowed")
    ∷ (codes "dockersocket", codes "mounting the Docker socket is not allowed")
    ∷ (codes "capabilities", codes "adding capabilities is not allowed (all are dropped)")
    ∷ (codes "capadd", codes "adding capabilities is not allowed (all are dropped)")
    ∷ (codes "capdrop", codes "capabilities are managed by the platform (all are dropped)")
    ∷ (codes "securitycontext", codes "security settings are managed by the platform")
    ∷ (codes "securityopt", codes "security settings are managed by the platform")
    ∷ (codes "sysctls", codes "sysctls are not allowed")
    ∷ (codes "user", codes "the platform always runs plugins as a non-root user")
    ∷ (codes "runasuser", codes "the platform always runs plugins as a non-root user")
    ∷ (codes "command", codes "custom commands are not allowed; the image entrypoint is used")
    ∷ (codes "entrypoint", codes "custom entrypoints are not allowed; the image entrypoint is used")
    ∷ (codes "args", codes "custom arguments are not allowed; the image entrypoint is used")
    ∷ (codes "env", codes "declare configuration under spec.config and secrets under spec.secrets")
    ∷ (
      codes "environment",
      codes "declare configuration under spec.config and secrets under spec.secrets",
    )
    ∷ (
      codes "buildargs",
      codes "build arguments are not allowed (secrets must never reach the build)",
    )
    ∷ (codes "allowprivilegeescalation", codes "privilege escalation is not allowed")
    ∷ []

-- strings.ReplaceAll of a byte by nothing.
unfoldable pub without : ℕ → Str → Str
without c [] = []
without c (d ∷ s) = if d == c then without c s else d ∷ without c s

-- The two letters outside ASCII whose lower case is in it are U+0130, for i, and U+212A, for k, in UTF-8.
-- The others are left as they are, since no dangerous key has one.
unfoldable pub fold_lead : ℕ → Str → Str
fold_lead c [] = c ∷ []
fold_lead c (d ∷ []) = if c == 0xC4 && d == 0xB0 then 105 ∷ [] else c ∷ d ∷ []
fold_lead c (d ∷ e ∷ s) =
    if c == 0xC4 && d == 0xB0
    then 105 ∷ e ∷ s
    else if c == 0xE2 && d == 0x84 && e == 0xAA
    then 107 ∷ s
    else c ∷ d ∷ e ∷ s

unfoldable pub fold_letters : Str → Str
unfolding fold_lead
fold_letters [] = []
fold_letters (c ∷ s) = fold_lead c (fold_letters s)

-- '_' is 95, '-' is 45.
unfoldable pub norm_key : Str → Str
unfolding to_lower fold_letters
norm_key k = without 45 (without 95 (to_lower (fold_letters k)))

abbrev pub config_properties : Str
config_properties = codes "spec.config.properties"

-- The path of a key of the mapping at a path.
abbrev pub child : Str → Str → Str
child at k = ite (Str-discrete at []) k (at ++ 46 ∷ k)

-- And that of an element of a list.
abbrev pub element : Str → ℕ → Str
element at i = at ++ 91 ∷ decimal i ++ 93 ∷ []

abbrev pub forbidden : Str → Str → Option Str
forbidden at k = ite (Str-discrete at config_properties) none (lookup (norm_key k) dangerous_keys)

-- What the loop over the keys adds for one key, before what stands below it.
unfoldable pub scan_key : Str → Str → List Issue
scan_key at k = elim (forbidden at k) [ none ↦ [] | some msg ↦ issue (child at k) msg ∷ [] ]

-- The issues of each key together, put into the order of the keys.
abbrev pub key_less : Str × List Issue → Str × List Issue → Bool
key_less a b = str_less a.0 b.0

abbrev pub gather : List (Str × List Issue) → List Issue
gather [] = []
gather ((k, l) ∷ ls) = l ++ gather ls

unfoldable mutual
  pub scan_dangerous : Value → Str → List Issue
  scan_dangerous (sequence es) at = scan_items es at 0
  scan_dangerous (mapping fs) at = gather (sort key_less (scan_fields fs at))
  scan_dangerous v at = []

  pub scan_items : Items → Str → ℕ → List Issue
  scan_items nil at i = []
  scan_items (cons v es) at i = scan_dangerous v (element at i) ++ scan_items es at (i + 1)

  pub scan_fields : Fields → Str → List (Str × List Issue)
  scan_fields end at = []
  scan_fields (field k v fs) at =
      (k, scan_key at k ++ scan_dangerous v (child at k)) ∷ scan_fields fs at
