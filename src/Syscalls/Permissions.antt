-- ===== src/Syscalls/Permissions.antt =====
-- The page permissions that sys_vm_map of limine-c-template-x86-64/kernel/src/syscalls.c asks for.
use willow_os.Prelude.{
  ℕ, ◌+◌, ◌-◌, ◌%◌, ◌^◌, bit_or, Bool, true, false, ◌≡◌, ◌⊎◌, inl, inr, refl, ◌==◌, if◌then◌else◌,
  arith,
}
use willow_os.Syscalls.{bit, permissions_of}

abbrev word_of : (readable writable protected : Bool) → ℕ
word_of readable writable protected =
    let r = if readable then 0 else bit_or 0 (2 ^ 64 - 2) in
    let w = if writable then bit_or r 2 else r in
    let x = if protected then bit_or w (2 ^ 63) else w in bit_or x 1

word_of-readable :
    (writable protected : Bool)
    → word_of true writable protected
      ≡ 1 + (if writable then 2 else 0) + (if protected then 2 ^ 63 else 0)
word_of-readable true true = refl
word_of-readable true false = refl
word_of-readable false true = refl
word_of-readable false false = refl

word_of-unreadable : (writable protected : Bool) → word_of false writable protected ≡ 2 ^ 64 - 1
word_of-unreadable true true = refl
word_of-unreadable true false = refl
word_of-unreadable false true = refl
word_of-unreadable false false = refl

-- With PROT_READ the pages are present, writable exactly with PROT_WRITE and not executable exactly
-- without PROT_EXEC, and no other bit is set, the bit for user programs neither; without PROT_READ all
-- 64 bits are set.
pub permissions_of-bits :
    (prot : ℕ)
    → ((prot % 2 ≡ 1)
        × (permissions_of prot
            ≡ 1 + (if bit 1 prot == 1 then 2 else 0) + (if bit 2 prot == 0 then 2 ^ 63 else 0)))
      ⊎ ((prot % 2 ≡ 0) × (permissions_of prot ≡ 2 ^ 64 - 1))
unfolding permissions_of
permissions_of-bits prot = split (bit 0 prot == 1) refl
  where
    split :
        (b : Bool)
        → (bit 0 prot == 1) ≡ b
        → ((prot % 2 ≡ 1)
            × (word_of b (bit 1 prot == 1) (bit 2 prot == 0)
                ≡ 1 + (if bit 1 prot == 1 then 2 else 0) + (if bit 2 prot == 0 then 2 ^ 63 else 0)))
          ⊎ ((prot % 2 ≡ 0) × (word_of b (bit 1 prot == 1) (bit 2 prot == 0) ≡ 2 ^ 64 - 1))
    split true e = inl (ground arith, word_of-readable (bit 1 prot == 1) (bit 2 prot == 0))
    split false e = inr (ground arith, word_of-unreadable (bit 1 prot == 1) (bit 2 prot == 0))
