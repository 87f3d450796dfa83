-- ===== src/Tests/Devices.antt =====
-- Examples for page table entries and devices.
use waguri.Base.{ℕ, ◌≡◌, refl, ◌<◌, ◌%◌, ◌/◌, ◌^◌, arith, true, List, null, cons, none, some, ok}
use waguri.Pte.{page_present, fpn_of, pte_set_fpn}
use waguri.Pte.Fields.{swapped_of, pte_set_fpn_fields}
use waguri.Memphy.{Memphy, failure, read, write, get_freefp, put_freefp, swap_cp_page}
use waguri.Memphy.Access.{access_out_of_range}
use waguri.Memphy.Frames.{get_freefp-put_freefp}
use waguri.Memphy.PageCopy.{Copied, swap_cp_page-Copied}
use waguri.Tests.Data.{ram, ram-IsValid, ram-IsRandom}

pte_set_fpn_fields_example :
    let e = pte_set_fpn 0x4000_0003 9 in
    (page_present e ≡ true)
    × (swapped_of e ≡ 0)
    × (fpn_of e ≡ 9)
    × (e / 2 ^ 13 % 2 ^ 17 ≡ 0)
    × (e < 2 ^ 32)
pte_set_fpn_fields_example = pte_set_fpn_fields 0x4000_0003 9 (omega arith) (omega arith)

access_out_of_range_example :
    (read (ram null) 512 ≡ ok (failure, none, ram null))
    × (write (ram null) 512 9 ≡ ok (failure, ram null))
access_out_of_range_example = access_out_of_range (ram null) 512 9 refl

abbrev tape : Memphy
tape = record (ram null) { rdmflg = 0 }

swap_cp_page-Copied_example :
    (s : List ℕ) × (swap_cp_page (ram null) 0 (ram (cons 1 null)) 1
      ≡ ok (ram null, record (ram (cons 1 null)) { storage = s }))
    × Copied (ram null).storage (ram (cons 1 null)).storage s 0 1 0
swap_cp_page-Copied_example =
    swap_cp_page-Copied (ram null) (ram (cons 1 null)) 0 1 (ram-IsValid null) (ram-IsRandom null)
      (omega arith) (ram-IsValid (cons 1 null)) (ram-IsRandom (cons 1 null)) (omega arith)

get_freefp-put_freefp_example :
    (get_freefp (put_freefp (ram null) 1).1 ≡ ok (0, some 1, ram null))
    × ((ram null).free_fp_list ≡ null → get_freefp (ram null) ≡ ok (failure, none, ram null))
get_freefp-put_freefp_example = get_freefp-put_freefp (ram null) 1
