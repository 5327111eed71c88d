-- ===== src/Fs.antt =====
-- kernel/src/fs.rs: directory entries, path components and the table of inodes in memory. Names and
-- paths are lists of bytes, and a directory is the list of its entries, entry `i` at offset `16 * i`.
pub mod Names
pub mod Reads
pub mod Link
pub mod Inodes
pub mod Paths
mod Tests
use octopos.Base.{
  ℕ, zero, suc, ◌+◌, ◌-◌, ◌*◌, ◌%◌, ◌^◌, Bool, true, false, not, ◌&&◌, ◌||◌, Option, none, some,
  List, [], ◌∷◌, ltb, ◌==◌, if◌then◌else◌, get_elem?, set, length, replicate, Result, ok, err,
}

abbrev pub dirsize : ℕ
dirsize = 14

-- `Directory::SIZE`
abbrev pub entry_size : ℕ
entry_size = 16

pub data FsError : Type 0 where
  out_of_block out_of_inode out_of_file out_of_range out_of_pipe invalid_name read write create link
        resolve type copy :
      FsError

pub record Directory : Type 0 where
  pub inum : ℕ
  pub name : List ℕ

-- `Directory::new_empty`
pub new_empty : Directory
new_empty = record { inum = 0; name = replicate dirsize 0 }

-- `&self.name[..end]`, up to the first zero byte
pub until_zero : List ℕ → List ℕ
until_zero [] = []
until_zero (c ∷ cs) = let rest = until_zero cs in if c == 0 then [] else c ∷ rest

abbrev pub bytes_equal : List ℕ → List ℕ → Bool
bytes_equal [] [] = true
bytes_equal [] (d ∷ ds) = false
bytes_equal (c ∷ cs) [] = false
bytes_equal (c ∷ cs) (d ∷ ds) = c == d && bytes_equal cs ds

-- `Directory::is_name_equal`
pub is_name_equal : Directory → List ℕ → Bool
is_name_equal d name = bytes_equal (until_zero d.name) name

-- `n` zero bytes, with as much of the name as fits copied over them
pub padded : ℕ → List ℕ → List ℕ
padded zero name = []
padded (suc n) [] = 0 ∷ padded n []
padded (suc n) (c ∷ cs) = c ∷ padded n cs

-- `Directory::set_name`
pub set_name : Directory → List ℕ → Directory
set_name d name = record d { name = padded dirsize name }

-- What `Directory::lookup` finds from entry `i` on, if its calls succeed: the offset and the inode number.
pub lookup_from : List ℕ → ℕ → List Directory → Option (ℕ × ℕ)
lookup_from name i [] = none
lookup_from name i (d ∷ ds) =
    let rest = lookup_from name (i + 1) ds in
    if d.inum == 0
    then rest
    else if is_name_equal d name
    then some (i * entry_size, d.inum)
    else rest

pub lookup : List ℕ → List Directory → Option (ℕ × ℕ)
lookup name ds = lookup_from name 0 ds

-- The write of `Directory::link`, to the first empty entry or behind the last.
pub put_entry : List ℕ → ℕ → List Directory → List Directory
put_entry name inum [] = record (set_name new_empty name) { inum = inum } ∷ []
put_entry name inum (d ∷ ds) =
    let rest = put_entry name inum ds in
    if d.inum == 0 then record (set_name d name) { inum = inum } ∷ ds else d ∷ rest

-- What the calls that `link` makes answer: `looks i` and `scans i` are `Inode::read` of entry `i`, in
-- `lookup` and in its own loop, with the number of bytes read; `gets i` says whether `Inode::get` of
-- inode `i` finds room; and `writes` is `Inode::write` of the new entry.
pub record Calls : Type 0 where
  pub looks : ℕ → Result ℕ FsError
  pub scans : ℕ → Result ℕ FsError
  pub gets : ℕ → Bool
  pub writes : Result ℕ FsError

-- `Directory::from_inode`, where `d` stands on the disk; `none` is its failed assertion.
abbrev pub from_inode : Result ℕ FsError → Directory → Option (Result Directory FsError)
from_inode (err e) d = some (err e)
from_inode (ok n) d = if n == entry_size then some (ok d) else none

-- `Directory::lookup` with the answers of its calls, from entry `i` on
pub lookup_reads : Calls → List ℕ → ℕ → List Directory → Option (Result (Option (ℕ × ℕ)) FsError)
lookup_reads c name i [] = some (ok none)
lookup_reads c name i (d ∷ ds) =
    let rest = lookup_reads c name (i + 1) ds in
    elim (from_inode (c.looks i) d) [
      | none ↦ none
      | some (err e) ↦ some (err e)
      | some (ok dir) ↦
          if dir.inum == 0
          then rest
          else if is_name_equal dir name
          then if c.gets dir.inum
            then some (ok (some (i * entry_size, dir.inum)))
            else some (err out_of_inode)
          else rest
    ]

-- The loop of `Directory::link`, from entry `i` on: the offset of the first empty entry, or of the end.
pub find_slot : Calls → ℕ → List Directory → Option (Result ℕ FsError)
find_slot c i [] = some (ok (i * entry_size))
find_slot c i (d ∷ ds) =
    let rest = find_slot c (i + 1) ds in
    elim (from_inode (c.scans i) d) [
      | none ↦ none
      | some (err e) ↦ some (err e)
      | some (ok dir) ↦ if dir.inum == 0 then some (ok (i * entry_size)) else rest
    ]

-- `Directory::link`: its result and, if it is `Ok`, the entries; `none` is a failed assertion. An error
-- of `lookup` is taken for an absent name. A write of the 16 bytes of an entry lies in one block, so
-- that it is done or changes no entry.
pub link_entry : Calls → List ℕ → ℕ → List Directory → Option (Result (List Directory) FsError)
link_entry c name inum ds =
    let go_on : Option (Result (List Directory) FsError) = elim (find_slot c 0 ds) [
      | none ↦ none
      | some (err e) ↦ some (err e)
      | some (ok _) ↦ elim c.writes [
        | err e ↦ some (err e)
        | ok n ↦ if n == entry_size then some (ok (put_entry name inum ds)) else some (err link)
      ]
    ] in
    elim (lookup_reads c name 0 ds) [
      | none ↦ none
      | some (ok (some _)) ↦ some (err link)
      | some (ok none) ↦ go_on
      | some (err _) ↦ go_on
    ]

abbrev pub slash : ℕ
slash = 47

-- `trim_start_matches('/')`
pub trim_start : List ℕ → List ℕ
trim_start [] = []
trim_start (c ∷ cs) = let rest = trim_start cs in if c == slash then rest else c ∷ cs

-- `s.find('/')`: the bytes before the first slash, and those from it on.
pub break_slash : List ℕ → List ℕ × List ℕ
break_slash [] = ([], [])
break_slash (c ∷ cs) =
    let (before, after) = break_slash cs in if c == slash then ([], c ∷ cs) else (c ∷ before, after)

-- `Path::next_component`
pub next_component : List ℕ → Option (List ℕ × List ℕ)
next_component path = elim (trim_start path) [
  | [] ↦ none
  | c ∷ cs ↦ (let (before, after) = break_slash (c ∷ cs) in some (before, trim_start after))
]

-- `InodeMeta`
pub record InodeMeta : Type 0 where
  pub dev : ℕ
  pub inum : ℕ
  pub refs : ℕ

-- What the loop of `Inode::get` finds: the inode, or the first entry with no references if any.
pub data Scan : Type 0 where
  found : ℕ → Scan
  empty : Option ℕ → Scan

-- The loop of `Inode::get`, from entry `id` on
pub scan : ℕ → ℕ → ℕ → Option ℕ → List InodeMeta → Scan
scan dev inum id seen [] = empty seen
scan dev inum id seen (m ∷ ms) =
    let go_on = scan dev inum (id + 1) seen ms in
    let go_on_empty = scan dev inum (id + 1) (some id) ms in
    if ltb 0 m.refs && (m.dev == dev) && (m.inum == inum)
    then found id
    else (elim seen [ some _ ↦ go_on | none ↦ if m.refs == 0 then go_on_empty else go_on ])

-- `ref += 1` and `ref -= 1` on u32
abbrev pub add_ref : InodeMeta → InodeMeta
add_ref m = record m { refs = (m.refs + 1) % 2 ^ 32 }

pub change : (InodeMeta → InodeMeta) → ℕ → List InodeMeta → List InodeMeta
change f i [] = []
change f zero (m ∷ ms) = f m ∷ ms
change f (suc i) (m ∷ ms) = m ∷ change f i ms

-- `Inode::get`: the index in the table, and whether its cached data is still good.
pub get : ℕ → ℕ → List InodeMeta → Result (ℕ × Bool) FsError × List InodeMeta
get dev inum ms = elim (scan dev inum 0 none ms) [
  | found id ↦ (ok (id, true), change add_ref id ms)
  | empty none ↦ (err out_of_inode, ms)
  | empty (some id) ↦
      (ok (id, false), change (λ m. record { dev = dev; inum = inum; refs = 1 }) id ms)
]

-- `Inode::dup`
pub dup : ℕ → List InodeMeta → List InodeMeta
dup id ms = change add_ref id ms
