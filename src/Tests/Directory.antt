-- ===== src/Tests/Directory.antt =====
-- A directory of two entries, and a program that lists it. Its state is how many entries were passed
-- over; a call of getdents64 shows the next entry and passes over all that are left, as one with a large
-- buffer does.
use nolibc.Prelude.{
  ℕ, zero, suc, ◌+◌, ◌-◌, ◌^◌, ◌≤◌, ◌<◌, ◌≡◌, ◌≢◌, ◌%◌, ap, ◌∙◌, inl, inr, refl, List, [], ◌∷◌,
  ◌++◌, arith, length, codes, ◌==◌, if◌then◌else◌,
}
use mathlib.Core.Path.{subst}
use nolibc.Mem.{Mem, write_all}
use nolibc.Mem.Laws.{SameOutside, CStr-frame, CStr-write_all, SameOutside-terminated}
use nolibc.Mem.Words.{store64}
use nolibc.Mem.Words.Laws.{load64-store64, load64-frame, store64-outside}
use nolibc.Str.Compare.Laws.{NonZero}
use nolibc.Sys.World.{World, Kernel}
use nolibc.Sys.Dirent.{fdopendir}
use nolibc.Sys.Dirent.Entries.{DirEntry, IsShown, Directory}
use nolibc.Sys.Dirent.Listing.{Lists, Keeps, readdir_r-Lists}
use nolibc.Tests.Calls.{numbers}

abbrev first : DirEntry
first = record { ino = 11; off = 1; name = codes "." }

abbrev second : DirEntry
second = record { ino = 22; off = 2; name = codes "nolibc" }

abbrev left_behind : ℕ → List DirEntry
left_behind zero = first ∷ second ∷ []
left_behind (suc zero) = second ∷ []
left_behind (suc (suc n)) = []

abbrev show : Mem → ℕ → DirEntry → Mem
show m buf e =
    store64 (store64 (write_all m (buf + 19) (e.name ++ 0 ∷ [])) buf e.ino) (buf + 8) e.off

abbrev answer : ℕ → Mem → List DirEntry → ℕ × Mem × ℕ
answer buf m [] = (2, m, 0)
answer buf m (e ∷ es) = (2, show m buf e, 32)

abbrev kernel : Kernel ℕ
kernel n (fd ∷ buf ∷ size ∷ []) k m =
    if n == 1015 then answer buf m (left_behind k) else (buf, m, buf)
kernel n args k m = (k, m, 0)

-- what the entry needs to be shown
abbrev IsPlain : DirEntry → Type 0
IsPlain e = (e.ino < 2 ^ 64) × (e.off < 2 ^ 64) × NonZero e.name × (length e.name ≤ 255)

show-IsShown : (m : Mem) (buf : ℕ) (e : DirEntry) → IsPlain e → IsShown (show m buf e) buf e
show-IsShown m buf e (ino, off, nz, le) =
    let m1 = write_all m (buf + 19) (e.name ++ 0 ∷ []) in
    let m2 = store64 m1 buf e.ino in
    let m3 = store64 m2 (buf + 8) e.off in
    (
      load64-frame m2 m3 buf (λ a lo hi. store64-outside m2 (buf + 8) e.off a (inl (omega arith)))
          ∙ load64-store64 m1 buf e.ino ino,
      load64-store64 m2 (buf + 8) e.off off,
      CStr-frame m1 m3 (buf + 19) e.name (CStr-write_all m (buf + 19) e.name nz) (λ a lo hi.
          store64-outside m2 (buf + 8) e.off a (inr (omega arith))
          ∙ store64-outside m1 buf e.ino a (inr (omega arith))),
    )

show-outside : (m : Mem) (buf : ℕ) (e : DirEntry) → IsPlain e → SameOutside buf 280 m (show m buf e)
show-outside m buf e (ino, off, nz, le) a out =
    let m1 = write_all m (buf + 19) (e.name ++ 0 ∷ []) in
    let m2 = store64 m1 buf e.ino in
    store64-outside m2 (buf + 8) e.off a (ground (arith, out))
    ∙ store64-outside m1 buf e.ino a (ground (arith, out))
    ∙ SameOutside-terminated m (buf + 19) e.name a (ground (arith, out, le))

-- what is asked of the kernel, for the entries that it has left
abbrev Answered : ℕ → Mem → ℕ → List DirEntry → Type 0
Answered k m buf [] = Unit
Answered k m buf (e ∷ es) =
    (k' : ℕ) × (m' : Mem) × (r : ℕ) × (kernel 1015 (3 ∷ buf ∷ 280 ∷ []) k m ≡ (k', m', r))
    × (0 < r)
    × (r < 2 ^ 31)
    × SameOutside buf 280 m m'
    × IsShown m' buf e
    × ((m'' : Mem)
        → (k'' : ℕ) × (kernel 1049 (3 ∷ e.off ∷ 0 ∷ []) k' m'' ≡ (k'', m'', e.off))
          × (left_behind k'' ≡ es))

answered : (k : ℕ) (m : Mem) (buf : ℕ) → Answered k m buf (left_behind k)
answered zero m buf =
    let plain : IsPlain first = ground arith in
    (
      2,
      show m buf first,
      32,
      refl,
      omega arith,
      omega arith,
      show-outside m buf first plain,
      show-IsShown m buf first plain,
      λ m''. (1, refl, refl),
    )
answered (suc zero) m buf =
    let plain : IsPlain second = ground arith in
    (
      2,
      show m buf second,
      32,
      refl,
      omega arith,
      omega arith,
      show-outside m buf second plain,
      show-IsShown m buf second plain,
      λ m''. (2, refl, refl),
    )
answered (suc (suc k)) m buf = tt

abbrev Fits : List DirEntry → Type 0
Fits [] = Unit
Fits (e ∷ es) =
    (e.ino < 2 ^ 64) × (e.off < 2 ^ 63) × (e.off % 2 ^ 32 ≢ 2 ^ 32 - 1) × (length e.name ≤ 255)

all_fit : (k : ℕ) → Fits (left_behind k)
all_fit zero = ground arith
all_fit (suc zero) = ground arith
all_fit (suc (suc k)) = tt

abbrev files : Directory numbers kernel 3 255
files = record {
  number = 1049;
  numbered = refl;
  left = left_behind;
  reads = λ k m buf e es h. subst (Answered k m buf) h (answered k m buf);
  stops = λ k m buf h. (2, ap (answer buf m) h);
  fits = λ k e es h. subst Fits h (all_fit k);
}

abbrev begin : World ℕ
begin = record { mem = λ _. 0; errno = 7; kernel = 0 }

readdir_r-Lists_example :
    (dirp : ℕ) × (fdopendir numbers kernel 3 begin ≡ (begin, dirp))
    × (dirp ≢ 0)
    × ((w' : World ℕ) × Lists numbers kernel 3 255 300 900 500 dirp 1000 begin
          (first ∷ second ∷ [])
          w'
        × (w'.errno ≡ 7)
        × Keeps numbers kernel 3 255 files (omega arith) 300 900 500 1000 begin.mem w'.mem)
readdir_r-Lists_example =
    readdir_r-Lists numbers kernel 3 255 files (omega arith) 300 900 500 1000 (omega arith)
      (omega arith) (inr (omega arith)) (inr (omega arith)) begin
