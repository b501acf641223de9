-- ===== src/Monitor/Links.antt =====
-- comon/comonitor.h: `_breakpoints` and `_breakpoint_addresses` describe the same breakpoints, from
-- the identifier and from the address, and the changes that the methods make keep it so.
use comon.Base.{
  ℕ, ◌≡◌, Bool, false, Option, none, some, inl, inr, Option-cases, arith, nat_beq, nat_eq, find,
  erase, Distinct, find-erase, find-insert, insert-Distinct, erase-Distinct,
}
use comon.Monitor.Types.{Monitor, Breakpoint, BreakpointData, MemoryProtect}
use comon.Monitor.Breakpoints.{store_breakpoint, replace_breakpoint, remove_from_maps}

abbrev pub holds : ℕ → Option ℕ → Bool
holds x none = false
holds x (some y) = nat_beq y x

abbrev pub addr_of : Option BreakpointData → Option ℕ
addr_of none = none
addr_of (some d) = some d.addr

-- An identifier stands under an address exactly when the address stands under the identifier.
pub record Linked (m : Monitor) : Type 0 where
  pub inverse :
      (i a : ℕ) → holds a (addr_of (find i m.breakpoints)) ≡ holds i (find a m.breakpoint_addresses)
  pub distinct : Distinct m.breakpoints

module _ (m : Monitor) where
  pub store-Linked :
      (i a : ℕ) (brk : Breakpoint) (mp : Option MemoryProtect)
      → find i m.breakpoints ≡ none
      → find a m.breakpoint_addresses ≡ none
      → Linked m
      → Linked (store_breakpoint i brk a mp m)
  unfolding store_breakpoint
  store-Linked i a brk mp new_id new_addr v = record {
    inverse = λ j b. ground (
      arith,
      find-insert i j (record { brk = brk; addr = a; mem_protect = mp }) m.breakpoints new_id,
      find-insert a b i m.breakpoint_addresses new_addr,
      v.inverse j b,
      v.inverse i b,
      v.inverse j a,
    );
    distinct = insert-Distinct i _ m.breakpoints v.distinct;
  }

  pub replace-Linked :
      (i a : ℕ) (brk : Breakpoint)
      → find a m.breakpoint_addresses ≡ some i
      → Linked m
      → Linked (replace_breakpoint i brk a m)
  unfolding replace_breakpoint
  replace-Linked i a brk at v = elim (Option-cases (find i m.breakpoints)) [
    | inl gone ↦ rw (gone, replace_breakpoint) v
    | inr (d, there) ↦
        let gone : find i (erase i m.breakpoints) ≡ none =
          ground (arith, find-erase i i m.breakpoints) in
        rw (there, replace_breakpoint)
          (record {
            inverse = λ j b. ground (
              arith,
              find-insert i j (record { brk = brk; addr = a; mem_protect = d.mem_protect })
                  (erase i m.breakpoints) gone,
              find-erase i j m.breakpoints,
              v.inverse j b,
              v.inverse i b,
              v.inverse i a,
            );
            distinct =
                insert-Distinct i _ (erase i m.breakpoints)
                  (erase-Distinct i m.breakpoints v.distinct);
          })
  ]

  pub remove-Linked :
      (i : ℕ) (d : BreakpointData)
      → find i m.breakpoints ≡ some d
      → Linked m
      → Linked (remove_from_maps i d.addr m)
  unfolding remove_from_maps
  remove-Linked i d at v = record {
    inverse = λ j b. ground (
      arith,
      find-erase i j m.breakpoints,
      find-erase d.addr b m.breakpoint_addresses,
      v.inverse j b,
      v.inverse i b,
      v.inverse j d.addr,
      v.inverse i d.addr,
    );
    distinct = erase-Distinct i m.breakpoints v.distinct;
  }
