-- ===== src/Manifest/Validation/Ceilings.antt =====
-- internal/plugins/manifest/manifest.go: the limits that `Effective` gives a plugin.
use llm_cache.Common.{
  ℕ, ◌≡◌, refl, inl, inr, [], ◌∷◌, Bool, true, false, not, ◌&&◌, ◌||◌, Str, codes, if◌then◌else◌,
  arith, concat-empty, Bool-cases,
}
use llm_cache.Common.Float.{Float64, float_lt, float_zero}
use llm_cache.Common.Int.{ℤ, pos, negsuc, leb_ℤ}
use llm_cache.Common.Result.{ok, Result-cases}
use llm_cache.Common.Word.{slt64, rank}
use llm_cache.Orchestrator.Guard.{eq_str}
use llm_cache.Manifest.Fields.{issue_with, between}
use llm_cache.Manifest.Quantities.{Numbers, parse_bytes}
use llm_cache.Manifest.Schema.{Manifest, Resources}
use llm_cache.Manifest.Validation.{
  Limits, min_memory, max_memory, min_tmpfs, max_tmpfs, max_pids, check_cpu, check_size,
  check_resources, parts, validate, wanted_limits, within_ceilings, effective, or_zero,
}
use llm_cache.Manifest.Fields.Silent.{issue_if-none, issue_with-none}

either : (a b : Bool) → (a || b) ≡ false → (a ≡ false) × (b ≡ false)
either true b h = cc
either false b h = (refl, h)

-- A size that passes lies within the bounds.
check_size-bounds :
    (at size : Str) (lo hi : ℕ) (why : Str)
    → check_size at size lo hi why ≡ []
    → eq_str size [] ≡ false
    → (slt64 hi (or_zero (parse_bytes size)) ≡ false)
      × (slt64 (or_zero (parse_bytes size)) lo ≡ false)
unfolding check_size
check_size-bounds at size lo hi why e given = elim (Result-cases (parse_bytes size)) [
  | inr (x, bad) ↦ absurd (unfold issue_with in ground arith)
  | inl (b, fine) ↦
      let inside = issue_if-none (slt64 hi b || slt64 b lo) at why (ground arith) in
      let split : (slt64 hi b ≡ false) × (slt64 b lo ≡ false) =
        either (slt64 hi b) (slt64 b lo) inside in
      rw fine split
]

-- The limits that are made from the fields of a manifest.
resources-checked :
    (nums : Numbers) (m : Manifest)
    → validate nums m ≡ []
    → check_resources nums m.spec.resources ≡ []
unfolding validate parts
resources-checked nums m e =
    let (_, (_, (_, (_, (_, (_, (_, (here, _)))))))) = concat-empty (parts nums m) e in here

resources_parts :
    (nums : Numbers) (res : Resources)
    → check_resources nums res ≡ []
    → (check_cpu nums res.cpu ≡ [])
      × (check_size
            (codes "spec.resources.memory")
            res.memory
            min_memory
            max_memory
            (codes "must be between 16Mi and 4Gi")
          ≡ [])
      × (check_size
            (codes "spec.resources.tmpfs")
            res.tmpfs
            min_tmpfs
            max_tmpfs
            (codes "must be between 1Mi and 1Gi")
          ≡ [])
      × (between (pos 0) max_pids res.pids ≡ true)
unfolding check_resources
resources_parts nums res e =
    let (c, (m, (t, (p, _)))) = concat-empty (_ ∷ _ ∷ _ ∷ _ ∷ []) e in
    let pids = issue_with-none (not (between (pos 0) max_pids res.pids)) _ _ _ p in
    (c, m, t, ground arith)

pids-wanted :
    (n : ℤ)
    → between (pos 0) max_pids n ≡ true
    → between (pos 1) max_pids (if leb_ℤ n (pos 0) then pos 128 else n) ≡ true
pids-wanted (pos n) h = ground arith
pids-wanted (negsuc n) h = ground arith

-- A size of a manifest, or a default that lies within the same bounds.
size-wanted :
    (at size : Str) (lo hi default : ℕ) (why : Str)
    → check_size at size lo hi why ≡ []
    → (slt64 hi default ≡ false) × (slt64 default lo ≡ false)
    → (slt64 hi (if eq_str size [] then default else or_zero (parse_bytes size)) ≡ false)
      × (slt64 (if eq_str size [] then default else or_zero (parse_bytes size)) lo ≡ false)
size-wanted at size lo hi default why e h = elim (Bool-cases (eq_str size [])) [
  | inl none_given ↦ rw none_given h
  | inr given ↦ rw given (check_size-bounds at size lo hi why e given)
]

-- What the operator's ceilings, where they are set, and those of the platform leave to a plugin.
pub record Granted (max_cpu : Float64) (max_mem : ℕ) (res : Resources) (l : Limits) : Type 0 where
  pub cpu_below : float_lt float_zero max_cpu ≡ true → float_lt max_cpu l.cpu ≡ false
  pub mem_below : slt64 0 max_mem ≡ true → slt64 max_mem l.mem ≡ false
  pub mem_asked :
      eq_str res.memory [] ≡ false
      → (slt64 max_memory l.mem ≡ false) × (slt64 l.mem min_memory ≡ false)
  pub pids : between (pos 1) max_pids l.pids ≡ true
  pub tmpfs : (slt64 max_tmpfs l.tmpfs ≡ false) × (slt64 l.tmpfs min_tmpfs ≡ false)

within_ceilings-ok :
    (w : Limits) (max_cpu : Float64) (max_mem : ℕ) (l : Limits)
    → within_ceilings w max_cpu max_mem ≡ ok l
    → (w ≡ l)
      × (float_lt float_zero max_cpu ≡ true → float_lt max_cpu w.cpu ≡ false)
      × (slt64 0 max_mem ≡ true → slt64 max_mem w.mem ≡ false)
unfolding within_ceilings
within_ceilings-ok w max_cpu max_mem l e =
    elim (Bool-cases (float_lt float_zero max_cpu && float_lt max_cpu w.cpu)) [
      | inl too_fast ↦ absurd (ground arith)
      | inr slow ↦ elim (Bool-cases (slt64 0 max_mem && slt64 max_mem w.mem)) [
        | inl too_large ↦ absurd (ground arith)
        | inr small ↦ (ground arith, λ h. ground arith, λ h. ground arith)
      ]
    ]

-- The limits that a manifest without issues gets, where it gets them: no more of a processor and of
-- memory than the operator's ceilings, if these are positive; between 16Mi and 4Gi of memory if it
-- asks for memory; from 1 to 1024 processes; and a /tmp of 1Mi to 1Gi. Sizes are int64.
pub effective-Granted :
    (nums : Numbers) (m : Manifest) (def_cpu : Float64) (def_mem : ℕ) (max_cpu : Float64)
    (max_mem : ℕ) (l : Limits)
    → validate nums m ≡ []
    → effective nums m def_cpu def_mem max_cpu max_mem ≡ ok l
    → Granted max_cpu max_mem m.spec.resources l
unfolding effective wanted_limits
effective-Granted nums m def_cpu def_mem max_cpu max_mem l valid e =
    let res = m.spec.resources in
    let w : Limits = wanted_limits nums def_cpu def_mem res in
    let (same, cpu, mem) = within_ceilings-ok w max_cpu max_mem l e in
    let (_, memory, tmpfs, pids) = resources_parts nums res (resources-checked nums m valid) in
    rw (← same) (record {
      cpu_below = cpu;
      mem_below = mem;
      mem_asked =
          λ given. rw given (check_size-bounds _ res.memory min_memory max_memory _ memory given);
      pids = pids-wanted res.pids pids;
      tmpfs =
          size-wanted _ res.tmpfs min_tmpfs max_tmpfs 67108864 _ tmpfs
            (unfold rank in (refl, refl));
    })
