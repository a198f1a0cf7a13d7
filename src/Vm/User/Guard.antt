-- ===== src/Vm/User/Guard.antt =====
-- vm.c: the page that `clearpteu` takes from the process.
use os163_assi.Prelude.{
  ℕ, ◌≡◌, ◌∙◌, refl, Bool, true, false, some, List, ◌∷◌, if◌then◌else◌, minus_one, arith,
}
use os163_assi.Kalloc.{done, pgrounddown}
use os163_assi.Vm.{Pte, Machine, walkpgdir, set_pte}
use os163_assi.Vm.Tables.{same_place, walkpgdir-set_pte}
use os163_assi.Vm.User.{clearpteu, uva2ka, null, copied, copyout, copyout_loop}

-- Afterwards the kernel finds nothing at the page for the process, and every other page as before.
clearpteu-uva2ka :
    (m : Machine) (d uva : ℕ) (pte : Pte)
    → walkpgdir m d uva ≡ some pte
    → (m' : Machine) × (clearpteu m d uva ≡ done tt m')
      × (uva2ka m' d uva ≡ null)
      × ((d' b : ℕ) → same_place d uva d' b ≡ false → uva2ka m' d' b ≡ uva2ka m d' b)
unfolding clearpteu uva2ka
clearpteu-uva2ka m d uva pte walk =
    let pte' = record pte { flags = record pte.flags { user = false } } in
    let self : same_place d uva d uva ≡ true = ground arith in
    let here : walkpgdir (set_pte m d uva pte') d uva ≡ some pte' =
      walkpgdir-set_pte m d uva pte pte' d uva walk ∙ rw self refl in
    (
      set_pte m d uva pte',
      rw walk refl,
      rw here (no_user pte.flags.present),
      λ d' b other. rw (walkpgdir-set_pte m d uva pte pte' d' b walk, other) refl,
    )
  where
    no_user : (b : Bool) → (if b then null else null) ≡ null
    no_user true = refl
    no_user false = refl

-- Nothing is copied out to such a page.
copyout-null :
    (m : Machine) (d va b : ℕ) (bytes : List ℕ)
    → uva2ka m d (pgrounddown va) ≡ null
    → copyout m d va (b ∷ bytes) ≡ copied minus_one m
unfolding copyout
copyout-null m d va b bytes e = rw (e, copyout_loop) refl
