-- ===== src/Sys/Dirent/Listing.antt =====
-- `readdir_r` lists a directory: a program that reads one to its end.
use nolibc.Prelude.{
  ℕ, ◌+◌, ◌-◌, ◌%◌, ◌^◌, ◌≤◌, ◌<◌, ◌≡◌, ◌≢◌, ◌∙◌, ◌⊎◌, refl, some, List, [], ◌∷◌, arith, lt→leb, ap,
}
use nolibc.Prelude.Words.{extend}
use nolibc.Mem.{Mem, CStr}
use nolibc.Mem.Laws.{Apart}
use nolibc.Mem.Words.{load64, store64}
use nolibc.Mem.Words.Laws.{store64-outside}
use nolibc.Sys.World.{World, Kernel, Numbers, syscall}
use nolibc.Sys.Fds.{sys_getdents64}
use nolibc.Sys.Seek.{lseek}
use nolibc.Sys.Dirent.{fdopendir, read_entry, readdir_r}
use nolibc.Sys.Dirent.Entries.{
  DirEntry, Directory, readdir_r-read_entry, read_entry-goes_on, lseek-seeks, copy_entry-copied,
  IsShown-store64,
}

module _ {K : Type 0} (nr : Numbers) (call : Kernel K) (fd name_max : ℕ) where
  module _ (fuel loff ldir dirp entry : ℕ) where
    -- a program that calls readdir_r until it is told that there are no more entries
    pub data Lists : World K → List DirEntry → World K → Type 0 where
      ends :
          {w w' : World K}
          → readdir_r nr call fuel name_max loff ldir dirp entry w
            ≡ some (record { world = w'; code = 0; result = some 0 })
          → Lists w [] w'
      gives :
          {w w' w'' : World K} (e : DirEntry) (es : List DirEntry)
          → entry ≢ 0
          → readdir_r nr call fuel name_max loff ldir dirp entry w
            ≡ some (record { world = w'; code = 0; result = some entry })
          → load64 w'.mem entry ≡ e.ino
          → CStr w'.mem (entry + 8) e.name
          → Lists w' es w''
          → Lists w (e ∷ es) w''

  module _ (d : Directory nr call fd name_max) (small : fd < 2 ^ 31)
      (fuel loff ldir entry : ℕ) where
    abbrev Area : ℕ → ℕ → ℕ → Type 0
    Area p n a = (a < p) ⊎ (p + n ≤ a)

    -- memory is kept outside the entry and the two local objects
    abbrev pub Keeps : Mem → Mem → Type 0
    Keeps m m' =
        (a : ℕ)
        → Area entry (8 + (name_max + 1)) a
        → Area ldir (24 + name_max + 1) a
        → Area loff 8 a
        → m' a ≡ m a

    module _ (enough : name_max < fuel) (nonzero : entry ≢ 0)
        (own : Apart entry (8 + (name_max + 1)) ldir (24 + name_max + 1))
        (apart : Apart loff 8 ldir (24 + name_max + 1)) where
      reads_one :
          (w : World K) (e : DirEntry) (es : List DirEntry)
          → d.left w.kernel ≡ e ∷ es
          → (w' : World K) × (readdir_r nr call fuel name_max loff ldir
                (extend (2 ^ 32 - 1 - fd))
                entry
                w
              ≡ some (record { world = w'; code = 0; result = some entry }))
            × (load64 w'.mem entry ≡ e.ino)
            × CStr w'.mem (entry + 8) e.name
            × (d.left w'.kernel ≡ es)
            × (w'.errno ≡ w.errno)
            × Keeps w.mem w'.mem
      unfolding sys_getdents64 syscall
      reads_one w e es h =
          let (k', m1, r, called, some_, int_, same1, shown, seeks) =
            d.reads w.kernel w.mem ldir e es h in
          let (lt, off_lt, off_ne, le) = d.fits w.kernel e es h in
          let w1 = record w { kernel = k'; mem = m1 } in
          let (k'', sought, rest) = seeks (store64 m1 loff 0) in
          let w2 = record w1 { kernel = k''; mem = store64 m1 loff 0 } in
          let (m, copied, ino, name, same) =
            copy_entry-copied nr call fd name_max d small fuel loff ldir entry e w2
              (IsShown-store64 nr call fd name_max d small fuel loff ldir entry e m1 shown le apart)
              lt le enough own in
          let whole : r % 2 ^ 32 ≡ r = omega (arith, int_) in
          let dents : sys_getdents64 nr call fd ldir (24 + name_max + 1) w ≡ (w1, r) =
            rw called (rw whole refl) in
          let seek_ : lseek nr call loff fd (load64 w1.mem (ldir + 8)) 0 w1 ≡ (w2, e.off) =
            ap (λ o. lseek nr call loff fd o 0 w1) shown.1
            ∙ lseek-seeks nr call fd name_max d small fuel loff ldir entry e w1 k'' off_lt sought in
          (
            record w2 { mem = m },
            readdir_r-read_entry nr call fd name_max d small fuel loff ldir entry w
                ∙ read_entry-goes_on nr call fd name_max d small fuel loff ldir entry w w1 w2 r
                    e.off (record { world = record w2 { mem = m }; code = 0; result = some entry })
                    dents seek_ some_ int_ off_ne copied,
            ino,
            name,
            rest,
            refl,
            λ a out buf local. same a out ∙ store64-outside m1 loff 0 a local ∙ same1 a buf,
          )

      reads_none :
          (w : World K)
          → d.left w.kernel ≡ []
          → (w' : World K) × (readdir_r nr call fuel name_max loff ldir
                (extend (2 ^ 32 - 1 - fd))
                entry
                w
              ≡ some (record { world = w'; code = 0; result = some 0 }))
            × (w'.errno ≡ w.errno)
            × (w'.mem ≡ w.mem)
      unfolding read_entry sys_getdents64 syscall
      reads_none w h =
          let (k', called) = d.stops w.kernel w.mem ldir h in
          (
            record w { kernel = k' },
            readdir_r-read_entry nr call fd name_max d small fuel loff ldir entry w
                ∙ rw called refl,
            refl,
            refl,
          )

      reads_all :
          (es : List DirEntry) (w : World K)
          → d.left w.kernel ≡ es
          → (w' : World K) × Lists fuel loff ldir (extend (2 ^ 32 - 1 - fd)) entry w es w'
            × (w'.errno ≡ w.errno)
            × Keeps w.mem w'.mem
      reads_all [] w h =
          let (w', run, quiet, same) = reads_none w h in
          (w', ends run, quiet, λ a out buf local. ap (λ m. m a) same)
      reads_all (e ∷ es) w h =
          let (w', run, ino, name, rest, quiet, same) = reads_one w e es h in
          let (w'', lists, quiet', same') = reads_all es w' rest in
          (
            w'',
            gives e es nonzero run ino name lists,
            quiet' ∙ quiet,
            λ a out buf local. same' a out buf local ∙ same a out buf local,
          )

      -- Over a kernel whose getdents64 and lseek work as documented, with entries whose offsets are no
      -- negative number and not -1 as an int and whose names fit a struct dirent, with objects that do
      -- not overlap: a program that opens the descriptor with fdopendir and calls readdir_r until it is
      -- told that there are no more gets there, after each entry that was left, in its order, with its
      -- inode and its name; no call fails, errno is kept, and memory changes in the struct dirent and
      -- the local objects only.
      pub readdir_r-Lists :
          (w : World K)
          → (dirp : ℕ) × (fdopendir nr call fd w ≡ (w, dirp))
            × (dirp ≢ 0)
            × ((w' : World K) × Lists fuel loff ldir dirp entry w (d.left w.kernel) w'
                × (w'.errno ≡ w.errno)
                × Keeps w.mem w'.mem)
      unfolding fdopendir
      readdir_r-Lists w = (
        extend (2 ^ 32 - 1 - fd),
        rw (lt→leb (2 ^ 31) fd small) refl,
        ground arith,
        reads_all (d.left w.kernel) w refl,
      )
