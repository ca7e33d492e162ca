-- ===== src/Stdio/Printf/Sink.antt =====
-- A callback of `__nolibc_printf` behind its laws: what it does with the bytes that it is handed, how
-- many it can still take, and the area of memory that is its own. Then how a run of the code moves it
-- on, and the loop that pads.
use nolibc.Prelude.{
  ℕ, zero, suc, ◌+◌, ◌%◌, ◌^◌, ◌≤◌, ◌<◌, ◌≡◌, ◌∙◌, ◌⊎◌, inl, inr, refl, sym, ap, some, List, [],
  ◌∷◌, ◌++◌, append-nil, append_assoc, arith, length,
}
use mathlib.Core.Path.{subst}
use nolibc.Mem.{Mem, Bytes}
use nolibc.Mem.Laws.{SameOutside, Apart}
use nolibc.Sys.World.{World}
use nolibc.Stdio.Printf.{Places, Callback, Printer, pad_loop}
use nolibc.Stdio.Printf.Pieces.{spaces}

pub record Sink {K : Type 0} (cb : Callback K) (scan : ℕ) : Type 1 where
  -- a state of the world and the callback in which it can take so many bytes
  pub able : World K → ℕ → ℕ → Type 0
  -- what it was handed so far
  pub output : World K → ℕ → List ℕ
  pub lo : ℕ
  pub size : ℕ
  pub takes :
      (w : World K) (sink t : ℕ) (s : List ℕ) (k : ℕ)
      → able w sink (length s + k)
      → Bytes w.mem t s
      → Apart lo size t (length s)
      → length s < scan
      → length s < 2 ^ 63
      → t + length s < 2 ^ 64
      → (w' : World K) × (sink' : ℕ) × (cb sink t (length s) w ≡ some (w', sink', 0))
        × able w' sink' k
        × (output w' sink' ≡ output w sink ++ s)
        × (w'.errno ≡ w.errno)
        × SameOutside lo size w.mem w'.mem
  pub still :
      (w : World K) (sink k : ℕ) (m : Mem)
      → able w sink k
      → ((a : ℕ) → lo ≤ a → a < lo + size → m a ≡ w.mem a)
      → (output (record w { mem = m }) sink ≡ output w sink) × able (record w { mem = m }) sink k

-- outside the `n` bytes at `p`
abbrev pub Outside : ℕ → ℕ → ℕ → Type 0
Outside p n a = (a < p) ⊎ (p + n ≤ a)

module _ {K : Type 0} {cb : Callback K} {scan : ℕ} (at : Places) (sink : Sink cb scan) where
  -- from a world, a callback's state and a count to others the bytes `s` were handed over, `n` were
  -- counted, and memory changed in `tmpbuf` and in the callback's area only
  pub record Moves (w : World K) (state : ℕ) (c : ℕ) (w' : World K) (state' : ℕ) (c' : ℕ)
      (s : List ℕ) (n : ℕ) : Type 0 where
    pub printed : sink.output w' state' ≡ sink.output w state ++ s
    pub counts : c' % 2 ^ 32 ≡ (c + n) % 2 ^ 32
    pub same_errno : w'.errno ≡ w.errno
    pub kept : (a : ℕ) → Outside at.tmpbuf 21 a → Outside sink.lo sink.size a → w'.mem a ≡ w.mem a

  abbrev pub Advances : Printer K → Printer K → List ℕ → ℕ → Type 0
  Advances p q s n = Moves p.world p.sink p.written q.world q.sink q.written s n

  pub Advances-append :
      (p q r : Printer K) (s t : List ℕ) (n k : ℕ)
      → Advances p q s n
      → Advances q r t k
      → Advances p r (s ++ t) (n + k)
  Advances-append p q r s t n k a b = record {
    printed =
        b.printed ∙ ap (λ x. x ++ t) a.printed ∙ append_assoc (sink.output p.world p.sink) s t;
    counts = omega (arith, a.counts, b.counts);
    same_errno = b.same_errno ∙ a.same_errno;
    kept = λ x out own. b.kept x out own ∙ a.kept x out own;
  }

  pub recounted :
      (p q : Printer K) (s : List ℕ) (n k : ℕ) → n ≡ k → Advances p q s n → Advances p q s k
  recounted p q s n k e a = subst (λ x. Advances p q s x) e a

  -- the literal " " stands where the code expects it, clear of the callback's area
  abbrev pub HasSpace : Mem → Type 0
  HasSpace m = (m at.space ≡ b' ') × Apart sink.lo sink.size at.space 1 × (at.space + 1 < 2 ^ 64)

  -- what a call hands over: the state behind it, which differs in the world, the callback's state and
  -- the count
  abbrev pub HandsOver : Printer K → List ℕ → ℕ → ℕ → (World K → ℕ → ℕ → Type 0) → Type 0
  HandsOver p s n k Runs =
      (w' : World K) × (sink' : ℕ) × (n' : ℕ) × Runs w' sink' n'
      × Advances p (record p { world = w'; sink = sink'; written = n' }) s n
      × sink.able w' sink' k
      × SameOutside sink.lo sink.size p.world.mem w'.mem

  pub pad_loop-Advances :
      (n k : ℕ) (p : Printer K)
      → sink.able p.world p.sink (n + k)
      → (n ≡ 0) ⊎ HasSpace p.world.mem
      → 1 < scan
      → HandsOver p (spaces n) n k (λ w' sink' n'.
        pad_loop cb at scan n p ≡ some (record p { world = w'; sink = sink'; written = n' }))
  unfolding pad_loop
  pad_loop-Advances zero k p able_ h f = (
    p.world,
    p.sink,
    p.written,
    refl,
    record {
      printed = sym (append-nil (sink.output p.world p.sink));
      counts = omega arith;
      same_errno = refl;
      kept = λ a out own. refl;
    },
    subst (λ x. sink.able p.world p.sink x) (omega arith) able_,
    λ a out. refl,
  )
  pad_loop-Advances (suc n) k p able_ (inl z) f = absurd (omega (arith, z))
  pad_loop-Advances (suc n) k p able_ (inr (here, clear, high)) f =
      let (w1, sink1, e, able1, out1, errno1, same1) =
        sink.takes p.world p.sink at.space (b' ' ∷ []) (n + k)
          (subst (λ x. sink.able p.world p.sink x) (omega arith) able_) (here, tt) clear
          (omega arith) (omega arith) high in
      let q = record p { world = w1; sink = sink1; written = (p.written + 1) % 2 ^ 32 } in
      let there : w1.mem at.space ≡ b' ' = same1 at.space (ground (arith, clear)) ∙ here in
      let (w', sink', n', run, a, able', same') =
        pad_loop-Advances n k q able1 (inr (there, clear, high)) f in
      (
        w',
        sink',
        n',
        rw e run,
        recounted p (record p { world = w'; sink = sink'; written = n' }) (spaces (suc n)) (1 + n)
            (suc n) (omega arith)
            (Advances-append p q (record p { world = w'; sink = sink'; written = n' }) (b' ' ∷ [])
              (spaces n) 1 n
              (record {
                printed = out1;
                counts = omega arith;
                same_errno = errno1;
                kept = λ x out own. same1 x own;
              })
              a),
        able',
        λ x out. same' x out ∙ same1 x out,
      )
