-- ===== src/Vm/Object.antt =====
-- kernel/vm/vm_object.c: reference-counted memory objects and their resident pages.
-- Objects are kept by address. A live object always has its `resident_pages` array, since
-- vm_object_create gives up without it, so the array is a list and its NULL tests are gone.
use rodnix.Prelude.{
  ℕ, ◌+◌, ◌-◌, ◌*◌, ◌/◌, ◌%◌, ◌^◌, Option, none, some, List, [], ◌∷◌, ltb, leb, ◌==◌, ◌||◌,
  if◌then◌else◌, add32, add64, get_or, set, replicate, Status, ok, invalid,
}
use rodnix.Vm.Machine.{Machine}
use rodnix.Vm.PageRef.{Refs, release, retain}
use rodnix.Vm.Range.{page_size, align_up}

pub data ObjectType : Type 0 where
  anon file : ObjectType

-- `vm_file_backing_t` behind `pager_private`; `addr` is its own address, `bytes` its `data`.
pub record FileBacking : Type 0 where
  pub addr : ℕ
  pub bytes : ℕ
  pub size : ℕ
  pub file_offset : ℕ

-- `vm_object_t`; `pages_addr` is the address of `resident_pages`.
pub record VmObject : Type 0 where
  pub type : ObjectType
  pub ref_count : ℕ
  pub size : ℕ
  pub page_count : ℕ
  pub pages_addr : ℕ
  pub resident_pages : List ℕ
  pub pager_private : Option FileBacking

-- The objects by address, beside the page references.
pub record Objects (m : Machine) : Type 0 where
  pub refs : Refs m
  pub object : ℕ → Option VmObject

-- A write of one object.
abbrev pub update : (ℕ → Option VmObject) → ℕ → Option VmObject → ℕ → Option VmObject
update f p v q = if p == q then v else f q

module _ (m : Machine) where
  open m use {State}

  unfoldable pub create : Objects m → ObjectType → ℕ → ℕ × Objects m
  create k type size =
      let (obj, hw1) = m.kmalloc k.refs.hw 40 in
      let page_count = align_up (if size == 0 then page_size else size) / page_size in
      let (pages, hw2) = m.kmalloc hw1 (page_count * 8 % 2 ^ 64) in
      let at = λ (hw : State). record k { refs = record k.refs { hw = hw } } in
      if obj == 0 then (0, at hw1) else if pages == 0 then (0, at (m.kfree hw2 obj)) else (
        obj,
        record (at hw2) {
          object = update k.object obj (
              some (record {
                type = type;
                ref_count = 1;
                size = size;
                page_count = page_count;
                pages_addr = pages;
                resident_pages = replicate page_count 0;
                pager_private = none;
              }));
        },
      )

  unfoldable pub ref : Objects m → ℕ → Objects m
  ref k p = if p == 0 then k else elim (k.object p) [
    | none ↦ k
    | some o ↦ record k {
      object = update k.object p (some (record o { ref_count = add32 o.ref_count 1 }));
    }
  ]

  -- One round of the write-back loop: page `i` of a file object, if it is resident and inside
  -- the file, goes to the file's bytes.
  write_back_page : FileBacking → ℕ → ℕ → State → State
  write_back_page fb i phys hw =
      let off = add64 fb.file_offset (i * page_size) in
      let avail = fb.size - off in
      if phys == 0
      then hw
      else if leb fb.size off
      then hw
      else m.store_bytes hw (fb.bytes + off) phys (if ltb page_size avail then page_size else avail)

  write_back : FileBacking → ℕ → List ℕ → State → State
  write_back fb i [] hw = hw
  write_back fb i (phys ∷ ps) hw = write_back fb (i + 1) ps (write_back_page fb i phys hw)

  write_back_file : VmObject → State → State
  write_back_file o hw = elim o.type [
    | anon ↦ hw
    | file ↦ elim o.pager_private [
      | none ↦ hw
      | some fb ↦
          if fb.bytes == 0
          then hw
          else if fb.size == 0
          then hw
          else write_back fb 0 o.resident_pages hw
    ]
  ]

  -- The loop that drops the object's own reference on each resident page.
  unfoldable pub release_pages : List ℕ → Refs m → Refs m
  release_pages [] r = r
  release_pages (phys ∷ ps) r = release_pages ps (if phys == 0 then r else (release m r phys).1)

  free_backing : Option FileBacking → Refs m → Refs m
  free_backing none r = r
  free_backing (some fb) r = record r { hw = m.kfree r.hw fb.addr }

  -- The end of an object whose count reached 0.
  unfoldable pub destroy : Objects m → ℕ → VmObject → Objects m
  unfolding write_back_page write_back write_back_file free_backing
  destroy k p o =
      let written = record (k.refs) { hw = write_back_file o k.refs.hw } in
      let dropped = release_pages o.resident_pages written in
      let freed = record dropped { hw = m.kfree dropped.hw o.pages_addr } in
      let r = free_backing o.pager_private freed in
      record { refs = record r { hw = m.kfree r.hw p }; object = update k.object p none }

  unfoldable pub unref : Objects m → ℕ → Objects m
  unref k p = if p == 0 then k else elim (k.object p) [
    | none ↦ k
    | some o ↦
        let left = o.ref_count - 1 in
        if left == 0
        then destroy k p o
        else record k { object = update k.object p (some (record o { ref_count = left })) }
  ]

  unfoldable pub get_resident_page : Objects m → ℕ → ℕ → ℕ
  get_resident_page k p i = if p == 0 then 0 else elim (k.object p) [
    | none ↦ 0
    | some o ↦ if leb o.page_count i then 0 else get_or o.resident_pages i 0
  ]

  unfoldable pub set_resident_page : Objects m → ℕ → ℕ → ℕ → Status × Objects m
  set_resident_page k p i phys = if p == 0 then (invalid, k) else elim (k.object p) [
    | none ↦ (invalid, k)
    | some o ↦
        let old = get_or o.resident_pages i 0 in
        let dropped = if old == 0 then k.refs else (release m k.refs old).1 in
        let held = (retain m dropped phys).1 in
        let o' = record o { resident_pages = set o.resident_pages i phys } in
        if leb o.page_count i || phys == 0
        then (invalid, k)
        else if old == phys
        then (ok, k)
        else (ok, record { refs = held; object = update k.object p (some o') })
  ]
