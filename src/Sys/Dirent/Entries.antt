-- ===== src/Sys/Dirent/Entries.antt =====
-- One entry of a directory: what `getdents64` and `lseek` do, as documented, and what a call of
-- `readdir_r` makes of it.
use nolibc.Prelude.{
  ℕ, ◌+◌, ◌-◌, ◌%◌, ◌^◌, ◌≤◌, ◌<◌, ◌≡◌, ◌≢◌, ◌∙◌, inl, refl, some, List, [], ◌∷◌, arith, length,
  take, ne→==, lt→leb, le→leb,
}
use mathlib.Core.Path.{subst}
use nolibc.Prelude.Words.{neg64, extend}
use nolibc.Errno.{enosys}
use nolibc.Mem.{Mem, CStr}
use nolibc.Mem.Laws.{Apart, SameOutside, CStr-frame, take_all}
use nolibc.Mem.Words.{load64, store64}
use nolibc.Mem.Words.Laws.{load64-store64, load64-frame, store64-outside}
use nolibc.Str.Copy.Strlcpy.{strlcpy-CStr}
use nolibc.Sys.World.{World, Kernel, Numbers, syscall, sysret64}
use nolibc.Sys.Fds.{sys_getdents64}
use nolibc.Sys.Seek.{sys_lseek, seek, lseek}
use nolibc.Sys.Dirent.{Entry, copy_entry, read_entry, readdir_r}

-- an entry: its inode, its name, and the offset at which the next one begins
pub record DirEntry : Type 0 where
  pub ino : ℕ
  pub off : ℕ
  pub name : List ℕ

-- the first entry in the buffer of `getdents64`
abbrev pub IsShown : Mem → ℕ → DirEntry → Type 0
IsShown m buf e = (load64 m buf ≡ e.ino) × (load64 m (buf + 8) ≡ e.off) × CStr m (buf + 19) e.name

module _ {K : Type 0} (nr : Numbers) (call : Kernel K) (fd name_max : ℕ) where
  -- An open directory, of which `left k` is still to be read. getdents64 answers with the number of
  -- bytes that it filled, the next entry first, or with 0 at the end; from the offset of an entry on
  -- the entries behind it are read.
  pub record Directory : Type 1 where
    pub number : ℕ
    pub numbered : nr.lseek ≡ some number
    pub left : K → List DirEntry
    pub reads :
        (k : K) (m : Mem) (buf : ℕ) (e : DirEntry) (es : List DirEntry)
        → left k ≡ e ∷ es
        → (k' : K) × (m' : Mem) × (r : ℕ) × (call nr.getdents64
              (fd ∷ buf ∷ (24 + name_max + 1) ∷ [])
              k
              m
            ≡ (k', m', r))
          × (0 < r)
          × (r < 2 ^ 31)
          × SameOutside buf (24 + name_max + 1) m m'
          × IsShown m' buf e
          × ((m'' : Mem)
              → (k'' : K) × (call number (fd ∷ e.off ∷ 0 ∷ []) k' m'' ≡ (k'', m'', e.off))
                × (left k'' ≡ es))
    pub stops :
        (k : K) (m : Mem) (buf : ℕ)
        → left k ≡ []
        → (k' : K) × (call nr.getdents64 (fd ∷ buf ∷ (24 + name_max + 1) ∷ []) k m ≡ (k', m, 0))
    -- what the library can represent: an offset is no negative number, and not -1 as an int
    pub fits :
        (k : K) (e : DirEntry) (es : List DirEntry)
        → left k ≡ e ∷ es
        → (e.ino < 2 ^ 64)
          × (e.off < 2 ^ 63)
          × (e.off % 2 ^ 32 ≢ 2 ^ 32 - 1)
          × (length e.name ≤ name_max)

  module _ (d : Directory) (small : fd < 2 ^ 31) (fuel loff ldir entry : ℕ) where
    pub lseek-seeks :
        (e : DirEntry) (w : World K) (k'' : K)
        → e.off < 2 ^ 63
        → call d.number (fd ∷ e.off ∷ 0 ∷ []) w.kernel (store64 w.mem loff 0)
          ≡ (k'', store64 w.mem loff 0, e.off)
        → lseek nr call loff fd e.off 0 w
          ≡ (record w { kernel = k''; mem = store64 w.mem loff 0 }, e.off)
    unfolding lseek seek sys_lseek sysret64 syscall
    lseek-seeks e w k'' lt called = rw d.numbered (
        rw called
          (rw (ne→== e.off (neg64 enosys) (omega arith)) (rw (lt→leb (2 ^ 63) e.off lt) refl)))

    pub read_entry-goes_on :
        (w w1 w2 : World K) (r pos : ℕ) (given : Entry K)
        → sys_getdents64 nr call fd ldir (24 + name_max + 1) w ≡ (w1, r)
        → lseek nr call loff fd (load64 w1.mem (ldir + 8)) 0 w1 ≡ (w2, pos)
        → 0 < r
        → r < 2 ^ 31
        → pos % 2 ^ 32 ≢ 2 ^ 32 - 1
        → copy_entry nr call fuel name_max ldir entry w2 ≡ some given
        → read_entry nr call fuel name_max loff ldir fd entry w ≡ some given
    unfolding read_entry
    read_entry-goes_on w w1 w2 r pos given dents sought lo hi ne copied = rw dents (
        rw sought (
          rw (lt→leb (2 ^ 31) r hi) (
            rw (ne→== r 0 (omega (arith, lo))) (rw (ne→== (pos % 2 ^ 32) (2 ^ 32 - 1) ne) copied))))

    -- a stream stands for its descriptor
    pub readdir_r-read_entry :
        (w : World K)
        → readdir_r nr call fuel name_max loff ldir (extend (2 ^ 32 - 1 - fd)) entry w
          ≡ read_entry nr call fuel name_max loff ldir fd entry w
    unfolding readdir_r
    readdir_r-read_entry w =
        let there : extend (2 ^ 32 - 1 - fd) ≡ 2 ^ 64 - 1 - fd = ground arith in
        let back : (2 ^ 64 - 1 - (2 ^ 64 - 1 - fd)) % 2 ^ 32 ≡ fd = omega arith in
        rw there (rw (le→leb (2 ^ 63) (2 ^ 64 - 1 - fd) (omega arith)) (rw back refl))

    -- the entry that the buffer shows is copied
    pub copy_entry-copied :
        (e : DirEntry) (w : World K)
        → IsShown w.mem ldir e
        → e.ino < 2 ^ 64
        → length e.name ≤ name_max
        → name_max < fuel
        → Apart entry (8 + (name_max + 1)) ldir (24 + name_max + 1)
        → (m : Mem) × (copy_entry nr call fuel name_max ldir entry w
            ≡ some (record { world = record w { mem = m }; code = 0; result = some entry }))
          × (load64 m entry ≡ e.ino)
          × CStr m (entry + 8) e.name
          × SameOutside entry (8 + (name_max + 1)) w.mem m
    unfolding copy_entry
    copy_entry-copied e w (ino, off, name) lt le f apart =
        let m = store64 w.mem entry (load64 w.mem ldir) in
        let there =
          CStr-frame w.mem m (ldir + 19) e.name name (λ a lo hi.
            store64-outside w.mem entry (load64 w.mem ldir) a (ground (arith, apart))) in
        let (m', run, copied, same) =
          strlcpy-CStr fuel m (entry + 8) (ldir + 19) e.name (name_max + 1) there
            (ground (arith, apart)) (omega arith) (omega arith) in
        let whole : name_max + 1 - 1 ≡ name_max = omega arith in
        let all_ : take (name_max + 1 - 1) e.name ≡ e.name = take_all _ e.name (omega arith) in
        (
          m',
          rw run refl,
          load64-frame m m' entry (λ b lo hi. same b (inl (omega arith)))
              ∙ rw ino (load64-store64 w.mem entry e.ino lt),
          subst (λ t. CStr m' (entry + 8) t) all_ copied,
          λ a out. ground (arith, same a, store64-outside w.mem entry (load64 w.mem ldir) a),
        )

    -- what the buffer shows is still there behind the seek
    pub IsShown-store64 :
        (e : DirEntry) (m : Mem)
        → IsShown m ldir e
        → length e.name ≤ name_max
        → Apart loff 8 ldir (24 + name_max + 1)
        → IsShown (store64 m loff 0) ldir e
    IsShown-store64 e m (ino, off, name) le apart =
        let same : (a : ℕ) → ldir ≤ a → a < ldir + (24 + name_max + 1) → store64 m loff 0 a ≡ m a =
          λ a lo hi. store64-outside m loff 0 a (ground (arith, apart)) in
        (
          load64-frame m (store64 m loff 0) ldir (λ b lo hi. same b lo (omega arith)) ∙ ino,
          load64-frame m (store64 m loff 0) (ldir + 8)
                (λ b lo hi. same b (omega arith) (omega arith))
              ∙ off,
          CStr-frame m (store64 m loff 0) (ldir + 19) e.name name
              (λ a lo hi. same a (omega arith) (omega arith)),
        )
