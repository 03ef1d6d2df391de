-- ===== src/Paging/Roundtrip.antt =====
-- A page that `map_page` has mapped is found by `virt_to_phys`.
use willow_os.Prelude.{
  ℕ, ◌+◌, ◌%◌, ◌≤◌, ◌<◌, ◌≡◌, ◌≢◌, refl, arith, ◌⊎◌, bit_or, bit_or-page_of_lt, ap, ◌∙◌,
}
use willow_os.Frame.{Machine}
use willow_os.Paging.{
  pml4_index, pdpt_index, pd_index, pt_index, page_of, table_of, slot, write, descend, Walk, walk,
  Space, mapped, map_page, page_table, virt_to_phys,
}
use willow_os.Paging.Descent.{IsSound, Outside, Descends, descend-Descends}

-- Four tables, pairwise different.
pub record Apart (pml4 pdpt pd pt : ℕ) : Type 0 where
  pub pml4_pdpt : pml4 ≢ pdpt
  pub pml4_pd : pml4 ≢ pd
  pub pml4_pt : pml4 ≢ pt
  pub pdpt_pd : pdpt ≢ pd
  pub pdpt_pt : pdpt ≢ pt
  pub pd_pt : pd ≢ pt

module _ (t u i j : ℕ) (t_page : t % 4096 ≡ 0) (u_page : u % 4096 ≡ 0) (i_small : i < 512)
    (apart : t ≢ u) where
  Outside-slot : Outside u (slot t i)
  Outside-slot = side (omega arith)
    where
      side : (slot t i < u) ⊎ (u + 4096 ≤ slot t i) → Outside u (slot t i)
      side h = h

  slot-ne : j < 512 → slot t i ≢ slot u j
  slot-ne j_small e = absurd (omega arith)

table_of-page : (e hhdm : ℕ) → hhdm % 4096 ≡ 0 → table_of e hhdm % 4096 ≡ 0
table_of-page e hhdm h = omega arith

-- Three levels, one after another, and the write into the last table.
module _ (hhdm pml4 i4 i3 i2 i1 e1 e2 e3 v : ℕ) (m m1 m2 m3 : Machine) (window : hhdm % 4096 ≡ 0)
    (root : pml4 % 4096 ≡ 0) (small : (i4 < 512) × (i3 < 512) × (i2 < 512) × (i1 < 512))
    (d1 : Descends pml4 i4 hhdm m e1 m1) (d2 : Descends (table_of e1 hhdm) i3 hhdm m1 e2 m2)
    (d3 : Descends (table_of e2 hhdm) i2 hhdm m2 e3 m3)
    (apart : Apart pml4 (table_of e1 hhdm) (table_of e2 hhdm) (table_of e3 hhdm)) where
  abbrev final : ℕ → ℕ
  final = write m3.words (slot (table_of e3 hhdm) i1) v

  final_other :
      (t i : ℕ)
      → t % 4096 ≡ 0
      → i < 512
      → t ≢ table_of e3 hhdm
      → final (slot t i) ≡ m3.words (slot t i)
  final_other t i page lt ne =
      ground
        (arith, slot-ne t (table_of e3 hhdm) i i1 page (table_of-page e3 hhdm window) lt ne small.3)

  third : final (slot (table_of e2 hhdm) i2) ≡ e3
  third =
      final_other (table_of e2 hhdm) i2 (table_of-page e2 hhdm window) small.2 apart.pd_pt
      ∙ d3.stands

  second : final (slot (table_of e1 hhdm) i3) ≡ e2
  second =
      final_other (table_of e1 hhdm) i3 page1 small.1 apart.pdpt_pt
      ∙ d3.frame (slot (table_of e1 hhdm) i3)
          (slot-ne (table_of e1 hhdm) (table_of e2 hhdm) i3 i2 page1 page2 small.1 apart.pdpt_pd
            small.2)
          (Outside-slot (table_of e1 hhdm) (table_of e3 hhdm) i3 i1 page1 page3 small.1
            apart.pdpt_pt)
      ∙ d2.stands
    where
      page1 : table_of e1 hhdm % 4096 ≡ 0
      page1 = table_of-page e1 hhdm window

      page2 : table_of e2 hhdm % 4096 ≡ 0
      page2 = table_of-page e2 hhdm window

      page3 : table_of e3 hhdm % 4096 ≡ 0
      page3 = table_of-page e3 hhdm window

  first : final (slot pml4 i4) ≡ e1
  first =
      final_other pml4 i4 root small.0 apart.pml4_pt
      ∙ d3.frame (slot pml4 i4)
          (slot-ne pml4 (table_of e2 hhdm) i4 i2 root (table_of-page e2 hhdm window) small.0
            apart.pml4_pd small.2)
          (Outside-slot pml4 (table_of e3 hhdm) i4 i1 root (table_of-page e3 hhdm window) small.0
            apart.pml4_pt)
      ∙ d2.frame (slot pml4 i4)
          (slot-ne pml4 (table_of e1 hhdm) i4 i3 root (table_of-page e1 hhdm window) small.0
            apart.pml4_pdpt small.1)
          (Outside-slot pml4 (table_of e2 hhdm) i4 i1 root (table_of-page e2 hhdm window) small.0
            apart.pml4_pd)
      ∙ d1.stands

page_table-reads :
    (cr3 virt_address hhdm : ℕ) (words : ℕ → ℕ) (e1 e2 e3 : ℕ)
    → words (slot cr3 (pml4_index virt_address)) ≡ e1
    → words (slot (table_of e1 hhdm) (pdpt_index virt_address)) ≡ e2
    → words (slot (table_of e2 hhdm) (pd_index virt_address)) ≡ e3
    → page_table cr3 virt_address hhdm words ≡ table_of e3 hhdm
unfolding page_table
page_table-reads cr3 virt_address hhdm words e1 e2 e3 a b c = rw (a, b, c)

module _ (pml4 virt_address permissions : ℕ) (m : Machine) (sound : IsSound m)
    (window : m.hhdm_offset % 4096 ≡ 0) (root : pml4 % 4096 ≡ 0) (small : permissions < 4096)
    (odd : permissions % 2 ≡ 1) where
  abbrev walked : Walk
  walked = walk pml4 virt_address permissions m

  abbrev level1 : ℕ × Machine
  level1 = descend pml4 (pml4_index virt_address) permissions m

  abbrev level2 : ℕ × Machine
  level2 = descend (table_of level1.0 m.hhdm_offset) (pdpt_index virt_address) permissions level1.1

  abbrev level3 : ℕ × Machine
  level3 = descend (table_of level2.0 m.hhdm_offset) (pd_index virt_address) permissions level2.1

  d1 : Descends pml4 (pml4_index virt_address) m.hhdm_offset m level1.0 level1.1
  d1 = descend-Descends _ _ _ _ m sound refl small odd

  d2 :
      Descends
        (table_of level1.0 m.hhdm_offset)
        (pdpt_index virt_address)
        m.hhdm_offset
        level1.1
        level2.0
        level2.1
  d2 = descend-Descends _ _ _ _ level1.1 d1.sound d1.window small odd

  d3 :
      Descends
        (table_of level2.0 m.hhdm_offset)
        (pd_index virt_address)
        m.hhdm_offset
        level2.1
        level3.0
        level3.1
  d3 = descend-Descends _ _ _ _ level2.1 d2.sound d2.window small odd

  indices :
      (pml4_index virt_address < 512)
      × (pdpt_index virt_address < 512)
      × (pd_index virt_address < 512)
      × (pt_index virt_address < 512)
  indices = omega arith

  page_table-walk :
      (v : ℕ)
      → Apart pml4 walked.pdpt walked.pd walked.pt
      → page_table pml4 virt_address m.hhdm_offset
          (write walked.machine.words (slot walked.pt (pt_index virt_address)) v)
        ≡ walked.pt
  unfolding walk
  page_table-walk v apart =
      page_table-reads pml4 virt_address m.hhdm_offset _ level1.0 level2.0 level3.0
        (first m.hhdm_offset pml4 _ _ _ _ _ _ _ v m _ _ _ window root indices d1 d2 d3 apart)
        (second m.hhdm_offset pml4 _ _ _ _ _ _ _ v m _ _ _ window root indices d1 d2 d3 apart)
        (third m.hhdm_offset pml4 _ _ _ _ _ _ _ v m _ _ _ window root indices d1 d2 d3 apart)

  walk-window : walked.machine.hhdm_offset ≡ m.hhdm_offset
  unfolding walk
  walk-window = d3.window

virt_to_phys-reads :
    (virt_address cr3 pt entry hhdm : ℕ) (m : Machine)
    → m.hhdm_offset ≡ hhdm
    → page_table cr3 virt_address hhdm m.words ≡ pt
    → m.words (slot pt (pt_index virt_address)) ≡ entry
    → virt_to_phys virt_address cr3 m ≡ page_of entry + virt_address % 4096
unfolding virt_to_phys
virt_to_phys-reads virt_address cr3 pt entry hhdm m a b c = rw (a, b, c)

page_of-bit_or : (a p : ℕ) → a % 4096 ≡ 0 → p < 4096 → page_of (bit_or a p) ≡ a
page_of-bit_or a p page small = omega (arith, bit_or-page_of_lt a p small)

-- On a sound layout of memory, with a root table, a frame and a window that begin at page boundaries,
-- and flags below bit 12 that include the present flag: after `map_page`, if the four tables of its walk
-- are pairwise different, `virt_to_phys` gives the frame's address plus the offset in the page.
pub map_page-virt_to_phys :
    (pml4 phys_address virt_address permissions : ℕ) (s : Space)
    → IsSound s.machine
    → s.machine.hhdm_offset % 4096 ≡ 0
    → pml4 % 4096 ≡ 0
    → phys_address % 4096 ≡ 0
    → permissions < 4096
    → permissions % 2 ≡ 1
    → Apart pml4
        (walk pml4 virt_address permissions s.machine).pdpt
        (walk pml4 virt_address permissions s.machine).pd
        (walk pml4 virt_address permissions s.machine).pt
    → virt_to_phys virt_address pml4
        (map_page pml4 phys_address virt_address permissions s).1.machine
      ≡ phys_address + virt_address % 4096
unfolding map_page
map_page-virt_to_phys pml4 phys_address virt_address permissions s sound window root page small odd
      apart =
    let m = s.machine in
    let w = walk pml4 virt_address permissions m in
    virt_to_phys-reads virt_address pml4 w.pt (bit_or phys_address permissions) m.hhdm_offset
      (mapped pml4 phys_address virt_address permissions m)
      (walk-window pml4 virt_address permissions m sound window root small odd)
      (page_table-walk pml4 virt_address permissions m sound window root small odd
        (bit_or phys_address permissions) apart)
      (ground arith)
    ∙ ap (λ k. k + virt_address % 4096) (page_of-bit_or phys_address permissions page small)
