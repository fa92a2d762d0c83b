-- ===== src/Fs/Path/Shift.antt =====
-- `path_shift` ends on every string, and splits it at its slashes.
use ucas_oslab.Base.{
  ℕ, zero, suc, ◌+◌, ◌-◌, ◌≤◌, ◌<◌, ◌≡◌, refl, sym, ap, ◌∙◌, ◌⊎◌, inl, inr, ◌==◌, Bool, true, false,
  none, some, arith, Bool-cases, ==_iff,
}
use native.Mathlib.Decide.{ℕ_discrete}
use ucas_oslab.Libs.Strings.{Chars}
use ucas_oslab.Fs.Dcache.{max_file_name}
use ucas_oslab.Fs.Path.{is_slash, in_name, skip_while, copy_name, at_name, path_shift}

-- All bytes from `i` up to `j` pass the test.
abbrev pub All : (ℕ → Bool) → Chars → ℕ → ℕ → Type 0
All test path i j = (k : ℕ) → i ≤ k → k < j → test (path k) ≡ true

-- Where a loop that starts at `i` stops.
record Stop (test : ℕ → Bool) (path : Chars) (i n j : ℕ) : Type 0 where
  from : i ≤ j
  upto : j ≤ n
  passed : All test path i j
  stopped : test (path j) ≡ false

skip_while-Stop :
    (test : ℕ → Bool) (path : Chars) (n fuel i : ℕ)
    → test 0 ≡ false
    → path n ≡ 0
    → i ≤ n
    → n < i + fuel
    → (j : ℕ) × (skip_while test path fuel i ≡ some j) × Stop test path i n j
unfolding skip_while
skip_while-Stop test path n zero i no_end end low enough = absurd (omega arith)
skip_while-Stop test path n (suc fuel) i no_end end low enough = elim (Bool-cases (test (path i))) [
  | inr off ↦ (
    i,
    rw off refl,
    record {
      from = omega arith;
      upto = low;
      passed = λ k a b. absurd (omega arith);
      stopped = off;
    },
  )
  | inl on ↦
      let here : i ≡ n → ⊥ = λ e. ground (arith, on, no_end, ap test (ap path e ∙ end)) in
      let (j, run, s) =
        skip_while-Stop test path n fuel (suc i) no_end end (omega arith) (omega arith) in
      let from : i ≤ j = omega (arith, s.from) in
      (
        j,
        rw on run,
        record {
          from = from;
          upto = s.upto;
          passed = λ k a b. elim (ℕ_discrete i k) [
            | yes e ↦ ap (λ x. test (path x)) (sym e) ∙ on
            | no ne ↦ s.passed k (omega arith) b
          ];
          stopped = s.stopped;
        },
      )
]

-- The name of the path from `i` lies from `s` up to `e`, and the rest starts at `j`.
pub record Shifted (path : Chars) (i s e j : ℕ) (name : Chars) : Type 0 where
  pub before : All is_slash path i s
  pub some_name : s < e
  pub name_bytes : All in_name path s e
  pub name_end : in_name (path e) ≡ false
  pub after : All is_slash path e j
  pub rest : is_slash (path j) ≡ false
  pub copied : (k : ℕ) → k < max_file_name → s + k < e → name k ≡ path (s + k)
  pub terminated : e < s + max_file_name → name (e - s) ≡ 0

-- On a string with its end at `n`, with more fuel than bytes, `path_shift` returns. Either only slashes
-- are left, and it returns NULL and keeps the buffer; or it returns the offset past the slashes after the
-- first name, and the buffer holds the first 28 bytes of that name, with a 0 behind them if it is shorter.
pub path_shift-Shifted :
    (path name : Chars) (n fuel i : ℕ)
    → path n ≡ 0
    → i ≤ n
    → n < i + fuel
    → ((s : ℕ) × (path_shift fuel path i name ≡ some (none, name))
        × All is_slash path i s
        × (path s ≡ 0))
      ⊎ ((s : ℕ) × (e : ℕ) × (j : ℕ) × (name' : Chars) × (path_shift fuel path i name
            ≡ some (some j, name'))
          × Shifted path i s e j name')
unfolding path_shift
path_shift-Shifted path name n fuel i end low enough =
    let (s, run_s, at_s) = skip_while-Stop is_slash path n fuel i refl end low enough in
    let from_s = at_s.from in
    let upto_s = at_s.upto in
    let first = ap (at_name path fuel name) run_s in
    elim (Bool-cases (path s == 0)) [
      | inl over ↦ inl (s, first ∙ rw over refl, at_s.passed, (==_iff (path s) 0).0 over)
      | inr more ↦
          let (e, run_e, at_e) =
            skip_while-Stop in_name path n fuel s refl end upto_s (omega arith) in
          let from_e = at_e.from in
          let upto_e = at_e.upto in
          let (j, run_j, at_j) =
            skip_while-Stop is_slash path n fuel e refl end upto_e (omega arith) in
          let here : in_name (path s) ≡ true = ground (arith, at_s.stopped, more) in
          let ne : s ≡ e → ⊥ =
            λ q. ground (arith, here, at_e.stopped, ap (λ x. in_name (path x)) q) in
          inr (
            s,
            e,
            j,
            copy_name path s (e - s) name,
            first ∙ rw (more, run_e, run_j) refl,
            record {
              before = at_s.passed;
              some_name = omega arith;
              name_bytes = at_e.passed;
              name_end = at_e.stopped;
              after = at_j.passed;
              rest = at_j.stopped;
              copied = λ k small inside. ground arith;
              terminated = λ short. ground arith;
            },
          )
    ]
