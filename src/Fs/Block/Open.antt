-- ===== src/Fs/Block/Open.antt =====
-- `block_open` shows a block in a buffer, keeps what every block holds, and returns while some buffer is
-- spare.
use ucas_oslab.Base.{
  ℕ, ◌+◌, ◌<◌, ◌≡◌, refl, sym, ap, ◌∙◌, inl, inr, ◌==◌, true, false, arith, Bool-cases,
  Option-cases, ==_iff, ==_ne, ==_refl,
}
use native.Mathlib.Decide.{ℕ_discrete}
use mathlib.Core.Path.{subst}
use ucas_oslab.Base.Run.{ok}
use ucas_oslab.Locking.Slots.{first, first-some, first_found, first_bound}
use ucas_oslab.Fs.Cache.{Sectors, IsLawful, block_size}
use ucas_oslab.Fs.Block.{
  Block, Blocks, block_concurrency, block_read, is_open, is_spare, put_block, set_refcnt,
  write_back, load, opened, reused, block_open,
}
use ucas_oslab.Fs.Block.Coherent.{
  first_away, InRange, view, IsValid, view_open, view_closed, put_block-IsValid,
  view-put_block_other, read-write_back_other, read-write_back_self,
}

-- The buffer `i` of block `b` after `block_open` in the state `s`.
pub record Opened {S : Sectors} (s : Blocks S) (b i : ℕ) (s' : Blocks S) : Type 0 where
  pub place : i < block_concurrency
  pub holds : is_open s' b i ≡ true
  pub counted : 0 < (s'.blocks i).refcnt
  pub shows : (j : ℕ) → j < block_size → (s'.blocks i).bytes j ≡ view s b j
  pub same_view : (c j : ℕ) → InRange s.superblock c → j < block_size → view s' c j ≡ view s c j
  pub valid : IsValid s'
  pub same_superblock : s'.superblock ≡ s.superblock
  pub spared : (k : ℕ) → (i ≡ k → ⊥) → is_spare s' k ≡ is_spare s k
  pub once : is_spare s i ≡ true → (s'.blocks i).refcnt ≡ 1

module _ {S : Sectors} (lawful : IsLawful S) (s : Blocks S) (b : ℕ) (v : IsValid s)
    (near : InRange s.superblock b) where
  -- The block has a buffer already.
  hit-Opened :
      (i : ℕ)
      → i < block_concurrency
      → is_open s b i ≡ true
      → Opened s b i (set_refcnt s i ((s.blocks i).refcnt + 1))
  hit-Opened i h on =
      let block : Block = record (s.blocks i) { refcnt = (s.blocks i).refcnt + 1 } in
      let held : is_open (put_block s i block) b i ≡ true = rw (==_refl i) on in
      let v' = put_block-IsValid s i block refl refl v in
      let kept : (c j : ℕ) → view (put_block s i block) c j ≡ view s c j = λ c j.
        elim (Bool-cases (is_open s c i)) [
          | inr off ↦ view-put_block_other s i block refl refl c j off
          | inl here ↦
              let same : is_open (put_block s i block) c i ≡ true = rw (==_refl i) here in
              ap (λ f. f j) (view_open (put_block s i block) c i v' h same)
              ∙ (rw (==_refl i) refl)
              ∙ sym (ap (λ f. f j) (view_open s c i v h here))
        ] in
      record {
        place = h;
        holds = held;
        counted = rw (==_refl i) (omega arith);
        shows = λ j hj. rw (==_refl i) (sym (ap (λ f. f j) (view_open s b i v h on)));
        same_view = λ c j inside hj. kept c j;
        valid = v';
        same_superblock = refl;
        spared = λ k ne. rw (==_ne i k ne) refl;
        once = λ spare. rw (==_refl i) (ground (arith, on, spare));
      }

  -- The block has no buffer, and takes a spare one.
  module _ (none_open : (k : ℕ) → k < block_concurrency → is_open s b k ≡ false) (i : ℕ)
      (h : i < block_concurrency) where
    loaded : Blocks S
    loaded = load (write_back s i) b i

    is_open-loaded : (c : ℕ) → is_open loaded c i ≡ (b == c)
    unfolding loaded
    is_open-loaded c = rw (==_refl i) refl

    is_open-loaded_other : (c k : ℕ) → (i ≡ k → ⊥) → is_open loaded c k ≡ is_open s c k
    unfolding loaded
    is_open-loaded_other c k ne = rw (==_ne i k ne) refl

    loaded_here : (c : ℕ) → is_open loaded c i ≡ true → b ≡ c
    loaded_here c on = (==_iff b c).0 (sym (is_open-loaded c) ∙ on)

    -- A buffer of `loaded` other than the one taken shows the block that it showed before.
    loaded_only :
        (c k : ℕ) → k < block_concurrency → (i ≡ k → ⊥) → is_open loaded c k ≡ true → b ≡ c → ⊥
    loaded_only c k hk ne on e =
        ground
          (arith, none_open k hk, sym (is_open-loaded_other c k ne) ∙ on, ap (λ x. is_open s x k) e)

    loaded-IsValid : IsValid loaded
    unfolding loaded
    loaded-IsValid = record {
      unique = λ c j k hj hk p q. elim (ℕ_discrete i j) [
        | yes e ↦ elim (ℕ_discrete i k) [
          | yes f ↦ sym e ∙ f
          | no ne ↦ absurd (
              loaded_only c k hk ne q
                (loaded_here c (subst (λ x. is_open loaded c x ≡ true) (sym e) p)))
        ]
        | no ne ↦ elim (ℕ_discrete i k) [
          | yes f ↦ absurd (
              loaded_only c j hj ne p
                (loaded_here c (subst (λ x. is_open loaded c x ≡ true) (sym f) q)))
          | no ne' ↦
              v.unique c j k hj hk (sym (is_open-loaded_other c j ne) ∙ p)
                (sym (is_open-loaded_other c k ne') ∙ q)
        ]
      ];
      inside = λ c j hj p. elim (ℕ_discrete i j) [
        | yes e ↦
            subst (InRange s.superblock)
              (loaded_here c (subst (λ x. is_open loaded c x ≡ true) (sym e) p)) near
        | no ne ↦ v.inside c j hj (sym (is_open-loaded_other c j ne) ∙ p)
      ];
    }

    loaded_shows : (j : ℕ) → j < block_size → (loaded.blocks i).bytes j ≡ view s b j
    unfolding loaded
    loaded_shows j hj =
        let shown : (loaded.blocks i).bytes j ≡ block_read (write_back s i) b j =
          rw (==_refl i) refl in
        shown
        ∙ read-write_back_other lawful s i b j v h (none_open i h) near hj
        ∙ sym (ap (λ f. f j) (view_closed s b none_open))

    -- A block that no buffer shows after the load is on the disk as the write has left it.
    view-loaded_closed :
        (c j : ℕ)
        → (b ≡ c → ⊥)
        → ((k : ℕ) → k < block_concurrency → (i ≡ k → ⊥) → is_open s c k ≡ false)
        → view loaded c j ≡ block_read (write_back s i) c j
    unfolding loaded
    view-loaded_closed c j ne off =
        ap (λ f. f j)
          (view_closed loaded c (λ k hk. elim (ℕ_discrete i k) [
            | yes e ↦ subst (λ x. is_open loaded c x ≡ false) e (is_open-loaded c ∙ ==_ne b c ne)
            | no away ↦ is_open-loaded_other c k away ∙ off k hk away
          ]))

    still_open :
        (c j k : ℕ)
        → (b ≡ c → ⊥)
        → j < block_size
        → k < block_concurrency
        → is_open s c k ≡ true
        → view loaded c j ≡ view s c j
    unfolding loaded
    still_open c j k ne hj hk on = elim (ℕ_discrete i k) [
      | yes e ↦
          let on_i = subst (λ x. is_open s c x ≡ true) (sym e) on in
          view-loaded_closed c j ne (λ m hm away. elim (Bool-cases (is_open s c m)) [
            | inr off ↦ off
            | inl too ↦ absurd (away (v.unique c i m h hm on_i too))
          ])
          ∙ read-write_back_self lawful s i c j on_i hj
          ∙ sym (ap (λ f. f j) (view_open s c i v h on_i))
      | no away ↦
          let kept : loaded.blocks k ≡ s.blocks k = rw (==_ne i k away) refl in
          ap (λ f. f j)
            (view_open loaded c k loaded-IsValid hk (is_open-loaded_other c k away ∙ on))
          ∙ ap (λ (x : Block). x.bytes j) kept
          ∙ sym (ap (λ f. f j) (view_open s c k v hk on))
    ]

    view-loaded : (c j : ℕ) → InRange s.superblock c → j < block_size → view loaded c j ≡ view s c j
    view-loaded c j inside hj = elim (ℕ_discrete b c) [
      | yes e ↦
          let here : is_open loaded b i ≡ true = is_open-loaded b ∙ ==_refl b in
          subst (λ x. view loaded x j ≡ view s x j) e
            (ap (λ f. f j) (view_open loaded b i loaded-IsValid h here) ∙ loaded_shows j hj)
      | no ne ↦ elim (Option-cases (first (is_open s c) block_concurrency 0)) [
        | inl e ↦
            let off = λ (k : ℕ) (hk : k < block_concurrency).
              first_away (is_open s c) block_concurrency k e hk in
            view-loaded_closed c j ne (λ k hk away. off k hk)
            ∙ read-write_back_other lawful s i c j v h (off i h) inside hj
            ∙ sym (ap (λ f. f j) (view_closed s c off))
        | inr (k, e) ↦
            let hk : k < block_concurrency =
              omega (arith, first_bound (is_open s c) block_concurrency 0 k e) in
            still_open c j k ne hj hk (first-some (is_open s c) block_concurrency 0 k e)
      ]
    ]

    loaded-Opened : Opened s b i loaded
    unfolding loaded
    loaded-Opened = record {
      place = h;
      holds = is_open-loaded b ∙ ==_refl b;
      counted = rw (==_refl i) (omega arith);
      shows = loaded_shows;
      same_view = view-loaded;
      valid = loaded-IsValid;
      same_superblock = refl;
      spared = λ k ne. rw (==_ne i k ne) refl;
      once = λ spare. rw (==_refl i) refl;
    }

  -- While a buffer is spare, `block_open` of a block in range returns its buffer: the buffer shows what
  -- the block held, every block in range holds what it held, whatever is written back, no block gets a
  -- second buffer, and the buffer is in use.
  pub block_open-Opened :
      (k : ℕ)
      → k < block_concurrency
      → is_spare s k ≡ true
      → (i : ℕ) × (s' : Blocks S) × (block_open s b ≡ ok (i, s')) × Opened s b i s'
  unfolding block_open loaded
  block_open-Opened k hk spare = elim (Option-cases (first (is_open s b) block_concurrency 0)) [
    | inr (i, e) ↦
        let h : i < block_concurrency =
          omega (arith, first_bound (is_open s b) block_concurrency 0 i e) in
        (
          i,
          set_refcnt s i ((s.blocks i).refcnt + 1),
          rw e refl,
          hit-Opened i h (first-some (is_open s b) block_concurrency 0 i e),
        )
    | inl e ↦
        let (i, found) =
          first_found (is_spare s) block_concurrency 0 k spare (omega arith) (omega arith) in
        let h : i < block_concurrency =
          omega (arith, first_bound (is_spare s) block_concurrency 0 i found) in
        (
          i,
          load (write_back s i) b i,
          ap (opened s b) e ∙ ap (reused s b) found,
          loaded-Opened (λ m hm. first_away (is_open s b) block_concurrency m e hm) i h,
        )
  ]
