-- ===== src/Interrupts/Gates.antt =====
-- The gates that idt_init of limine-c-template-x86-64/kernel/src/idt.c sets up.
use willow_os.Prelude.{
  ℕ, zero, suc, ◌+◌, ◌-◌, ◌*◌, ◌%◌, ◌^◌, ◌≤◌, ◌<◌, ◌≡◌, ◌∙◌, ap, refl, sym, ◌⊎◌, inl, inr, Bool,
  true, false, ◌==◌, if◌then◌else◌, arith,
}
use mathlib.Core.Path.{subst}
use willow_os.Interrupts.{IdtEntry, Idt, idt_set_descriptor, idt_loop, idt_init}

-- The handler of a gate, put together from its three parts.
abbrev pub handler : IdtEntry → ℕ
handler e = e.isr_low + e.isr_mid * 2 ^ 16 + e.isr_high * 2 ^ 32

-- A gate for an interrupt handler: present, of an interrupt, in the kernel's code segment.
abbrev pub Gate : (isr : ℕ) → IdtEntry → Type 0
Gate isr e =
    (handler e ≡ isr) × (e.attributes ≡ 0x8e) × (e.kernel_cs ≡ 8) × (e.ist ≡ 0) × (e.reserved ≡ 0)

-- What the loop does to one vector.
abbrev Served : (before after : Idt) (lo hi : ℕ) (isr_stub_table : ℕ → ℕ) (v : ℕ) → Type 0
Served before after lo hi isr_stub_table v =
    ((lo ≤ v → v < hi → Gate (isr_stub_table v) (after.idt v) × (after.vectors v ≡ true))
      × ((v < lo) ⊎ (hi ≤ v) → (after.idt v ≡ before.idt v) × (after.vectors v ≡ before.vectors v)))
    × (after.limit ≡ before.limit)

-- One round of the loop.
round : (vector : ℕ) (isr_stub_table : ℕ → ℕ) → Idt → Idt
round vector isr_stub_table s = record (idt_set_descriptor vector (isr_stub_table vector) 0x8e s) {
  vectors = λ v. if v == vector then true else s.vectors v;
}

round-here :
    (vector v : ℕ) (isr_stub_table : ℕ → ℕ) (s : Idt)
    → vector < 256
    → v ≡ vector
    → isr_stub_table vector < 2 ^ 64
    → Gate (isr_stub_table v) ((round vector isr_stub_table s).idt v)
      × ((round vector isr_stub_table s).vectors v ≡ true)
unfolding round idt_set_descriptor
round-here vector v isr_stub_table s small e fits =
    let here : (v == vector % 2 ^ 8) ≡ true = ground arith in
    let same : (v == vector) ≡ true = ground arith in
    let stub : isr_stub_table v ≡ isr_stub_table vector = ap isr_stub_table e in
    rw (here, same, stub) ((omega arith, refl, refl, refl, refl), refl)

round-other :
    (vector v : ℕ) (isr_stub_table : ℕ → ℕ) (s : Idt)
    → vector < 256
    → (v == vector) ≡ false
    → ((round vector isr_stub_table s).idt v ≡ s.idt v)
      × ((round vector isr_stub_table s).vectors v ≡ s.vectors v)
unfolding round idt_set_descriptor
round-other vector v isr_stub_table s small other =
    let there : (v == vector % 2 ^ 8) ≡ false = ground arith in rw (there, other) (refl, refl)

module _ (lo k v : ℕ) (isr_stub_table : ℕ → ℕ) (s after : Idt) (small : lo + suc k ≤ 256)
    (fits : (w : ℕ) → isr_stub_table w < 2 ^ 64) where
  round-Served :
      Served (round lo isr_stub_table s) after (lo + 1) (lo + 1 + k) isr_stub_table v
      → Served s after lo (lo + suc k) isr_stub_table v
  unfolding round idt_set_descriptor
  round-Served ((inside, outside), limit) = ((inside', outside'), limit)
    where
      inside' :
          lo ≤ v → v < lo + suc k → Gate (isr_stub_table v) (after.idt v) × (after.vectors v ≡ true)
      inside' low high = split (v == lo) refl
        where
          split :
              (b : Bool)
              → (v == lo) ≡ b
              → Gate (isr_stub_table v) (after.idt v) × (after.vectors v ≡ true)
          split true e =
              let kept = outside (inl (ground arith)) in
              let here = round-here lo v isr_stub_table s (omega arith) (ground arith) (fits lo) in
              (subst (Gate (isr_stub_table v)) (sym kept.0) here.0, kept.1 ∙ here.1)
          split false e = inside (ground arith) (omega arith)

      outside' :
          (v < lo) ⊎ (lo + suc k ≤ v) → (after.idt v ≡ s.idt v) × (after.vectors v ≡ s.vectors v)
      outside' (inl h) =
          let kept = outside (inl (omega arith)) in
          let there = round-other lo v isr_stub_table s (omega arith) (ground arith) in
          (kept.0 ∙ there.0, kept.1 ∙ there.1)
      outside' (inr h) =
          let kept = outside (inr (omega arith)) in
          let there = round-other lo v isr_stub_table s (omega arith) (ground arith) in
          (kept.0 ∙ there.0, kept.1 ∙ there.1)

idt_loop-Served :
    (k lo v : ℕ) (isr_stub_table : ℕ → ℕ) (s : Idt)
    → lo + k ≤ 256
    → ((w : ℕ) → isr_stub_table w < 2 ^ 64)
    → Served s (idt_loop k lo isr_stub_table s) lo (lo + k) isr_stub_table v
unfolding idt_loop round
idt_loop-Served zero lo v isr_stub_table s small fits =
    ((λ low high. absurd (omega arith), λ off. (refl, refl)), refl)
idt_loop-Served (suc k) lo v isr_stub_table s small fits =
    round-Served lo k v isr_stub_table s
      (idt_loop k (lo + 1) isr_stub_table (round lo isr_stub_table s)) small fits
      (idt_loop-Served k (lo + 1) v isr_stub_table (round lo isr_stub_table s) (omega arith) fits)

-- After idt_init every one of the 256 vectors has a present interrupt gate in the kernel's code
-- segment, from which the address of its stub is read back, and lies within the limit of the table,
-- and no entry behind them has changed.
pub idt_init-Gate :
    (isr_stub_table : ℕ → ℕ) (s : Idt) (v : ℕ)
    → ((w : ℕ) → isr_stub_table w < 2 ^ 64)
    → (let s' = idt_init isr_stub_table s in
        (v < 256
          → Gate (isr_stub_table v) (s'.idt v) × (s'.vectors v ≡ true) × (16 * v + 15 ≤ s'.limit))
        × (256 ≤ v → (s'.idt v ≡ s.idt v) × (s'.vectors v ≡ s.vectors v)))
unfolding idt_init
idt_init-Gate isr_stub_table s v fits =
    done (idt_loop 256 0 isr_stub_table s0)
      (idt_loop-Served 256 0 v isr_stub_table s0 (omega arith) fits)
  where
    s0 : Idt
    s0 = record s { limit = (16 * 256 - 1) % 2 ^ 16 }

    done :
        (after : Idt)
        → Served s0 after 0 256 isr_stub_table v
        → (v < 256
            → Gate (isr_stub_table v) (after.idt v)
              × (after.vectors v ≡ true)
              × (16 * v + 15 ≤ after.limit))
          × (256 ≤ v → (after.idt v ≡ s.idt v) × (after.vectors v ≡ s.vectors v))
    done after ((inside, outside), limit) = (
      λ small.
          let served = inside (omega arith) small in (served.0, served.1, omega (arith, limit)),
      λ large. outside (inr large),
    )
