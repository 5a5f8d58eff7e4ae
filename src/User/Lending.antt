-- ===== src/User/Lending.antt =====
-- lib/fork.c: a page of the parent goes into the child's address space too.
use xv6_lab.Base.{
  ℕ, suc, ◌+◌, ◌/◌, ◌^◌, ◌≤◌, ◌<◌, ◌≡◌, ◌≢◌, true, false, Option, List, [], arith, length, ◌∙◌,
}
use xv6_lab.Machine.Mmu.{pdx, ptx, present, utop}
use xv6_lab.Machine.Phys.{Phys, ok}
use xv6_lab.Pmap.Table.{page_insert}
use xv6_lab.Pmap.Space.{table, pte_at}
use xv6_lab.Pmap.Walk.{IsSpace}
use xv6_lab.Pmap.Insert.{entry_for}
use xv6_lab.Pmap.Held.{IsPage, page_insert-Entered, Remapped-here, Remapped-there}
use xv6_lab.Pmap.Replacing.{page_insert-again}
use xv6_lab.Pmap.Isolated.{Apart, Apart-sym, other-cell, other-Apart, other-IsSpace, other-IsPage}

-- Two address spaces that keep off each other, with one free list
pub record Spaces (s : Phys) (d d' : ℕ) (xs : List ℕ) : Type 0 where
  pub mine : IsSpace s d xs
  pub other : IsSpace s d' xs
  pub apart : Apart s d d' xs

-- A page in use that is a table of neither
pub record IsCommon (s : Phys) (d d' : ℕ) (xs : List ℕ) (y : ℕ) : Type 0 where
  pub mine : IsPage s d xs y
  pub other : IsPage s d' xs y

-- A page in use stays one, keeps its contents, and gains a reference at most.
pub record Kept (s t : Phys) (d d' : ℕ) (ys : List ℕ) (y : ℕ) : Type 0 where
  pub common : IsCommon t d d' ys y
  pub content : t.mem y ≡ s.mem y
  pub more : (s.pages y).ref ≤ (t.pages y).ref
  pub one_more : (t.pages y).ref ≤ (s.pages y).ref + 1

-- From `s` to `t` the entry for `va` becomes `w` in `d` and `w'` in `d'`, and no other changes.
pub record Lent (s t : Phys) (d d' va w w' : ℕ) (xs ys : List ℕ) : Type 0 where
  pub parent : pte_at t.mem d va ≡ w
  pub child : pte_at t.mem d' va ≡ w'
  pub elsewhere :
      (v : ℕ)
      → v < 2 ^ 32
      → va / 4096 ≢ v / 4096
      → (pte_at t.mem d v ≡ pte_at s.mem d v) × (pte_at t.mem d' v ≡ pte_at s.mem d' v)
  pub pages : (y : ℕ) → IsCommon s d d' xs y → Kept s t d d' ys y
  pub spaces : Spaces t d d' ys
  pub one_less : length xs ≤ suc (length ys)

-- What the parent `d` needs to share its page `q` at `va` with the child `d'`
pub record CanShare (s : Phys) (d d' va q : ℕ) (xs : List ℕ) : Type 0 where
  pub spaces : Spaces s d d' xs
  pub room : xs ≢ []
  pub mapped : present (pte_at s.mem d va) ≡ true
  pub at : table (pte_at s.mem d va) ≡ q
  pub page : IsCommon s d d' xs q
  pub counts : (0 < (s.pages q).ref) × ((s.pages q).ref + 2 < 2 ^ 16)
  pub empty : present (pte_at s.mem d' va) ≡ false

module _ {s : Phys} {d d' va q : ℕ} {xs : List ℕ} (cur : Option ℕ) (perm : ℕ)
    (can : CanShare s d d' va q xs) (low : va < utop) where
  open can use {spaces}

  -- The page is inserted in the child.
  pub lend :
      (m : Phys) × (ys : List ℕ) × (q < m.npages)
      × (page_insert cur d' q va perm s ≡ ok true m)
      × Lent s m d d' va (pte_at s.mem d va) (entry_for q perm) xs ys
      × ((m.pages q).ref ≡ (s.pages q).ref + 1)
  lend =
      let (m, ys, run, entered, less, more, rest) =
        page_insert-Entered cur va perm spaces.other (ground (arith, low)) can.room can.page.other
          (omega (arith, can.counts)) can.empty in
      let same =
        λ (w : ℕ). other-cell spaces.mine spaces.apart low entered (pdx w) (ptx w) (omega arith) in
      let moved = λ (y : ℕ) (both : IsCommon s d d' xs y).
        other-IsPage spaces.mine spaces.apart low entered y both.mine both.other in
      (
        m,
        ys,
        (moved q can.page).bound,
        run,
        record {
          parent = same va;
          child = Remapped-here s m d' va (entry_for q perm) entered.remapped;
          elsewhere = λ w b ne. (
            same w,
            Remapped-there s m d' va (entry_for q perm) w entered.remapped (omega (arith, low)) b
                ne,
          );
          pages = λ y both. record {
            common = record { mine = moved y both; other = (entered.pages y both.other).0 };
            content = (entered.pages y both.other).1;
            more = ground (arith, more, rest y both.mine.out);
            one_more = ground (arith, more, rest y both.mine.out);
          };
          spaces = record {
            mine = other-IsSpace spaces.mine spaces.apart low entered;
            other = entered.space;
            apart = other-Apart spaces.mine spaces.apart low entered;
          };
          one_less = less;
        },
        more,
      )

-- The parent's entry gets other permissions after that.
pub renew :
    {s m : Phys} {d d' va w w' q : ℕ} {xs ys : List ℕ} (cur : Option ℕ) (perm : ℕ)
    → Lent s m d d' va w w' xs ys
    → va < utop
    → present (pte_at m.mem d va) ≡ true
    → table (pte_at m.mem d va) ≡ q
    → IsCommon m d d' ys q
    → (0 < (m.pages q).ref) × ((m.pages q).ref + 1 < 2 ^ 16)
    → (t : Phys) × (page_insert cur d q va perm m ≡ ok true t)
      × Lent s t d d' va (entry_for q perm) w' xs ys
      × ((t.pages q).ref ≡ (m.pages q).ref)
renew {s} {m} {d} {d'} {va} {w} {w'} {q} {xs} {ys} cur perm lent low mapped at page counts =
    let spaces = lent.spaces in
    let (t, run, entered, count, rest) =
      page_insert-again cur va perm spaces.mine page.mine counts mapped at in
    let apart' = Apart-sym spaces.other spaces.apart in
    let same =
      λ (v : ℕ). other-cell spaces.other apart' low entered (pdx v) (ptx v) (omega arith) in
    (
      t,
      run,
      record {
        parent = Remapped-here m t d va (entry_for q perm) entered.remapped;
        child = same va ∙ lent.child;
        elsewhere = λ v b ne. (
          Remapped-there m t d va (entry_for q perm) v entered.remapped (omega (arith, low)) b ne
              ∙ (lent.elsewhere v b ne).0,
          same v ∙ (lent.elsewhere v b ne).1,
        );
        pages = λ y both.
            let kept = lent.pages y both in
            record {
              common = record {
                mine = (entered.pages y kept.common.mine).0;
                other =
                    other-IsPage spaces.other apart' low entered y kept.common.other
                      kept.common.mine;
              };
              content = (entered.pages y kept.common.mine).1 ∙ kept.content;
              more = ground (arith, count, rest y, kept.more);
              one_more = ground (arith, count, rest y, kept.one_more);
            };
        spaces = record {
          mine = entered.space;
          other = other-IsSpace spaces.other apart' low entered;
          apart = Apart-sym entered.space (other-Apart spaces.other apart' low entered);
        };
        one_less = lent.one_less;
      },
      count,
    )
