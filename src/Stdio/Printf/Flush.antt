-- ===== src/Stdio/Printf/Flush.antt =====
-- What `flush` hands over at once: a text with the spaces in front of it, under the limit.
use nolibc.Prelude.{
  ℕ, ◌+◌, ◌-◌, ◌%◌, ◌^◌, ◌≤◌, ◌<◌, ◌≡◌, ◌≢◌, ◌∙◌, ◌⊎◌, inl, inr, refl, sym, ap, true, some, List,
  [], ◌++◌, append-nil, append_assoc, length-append, arith, ◌==◌, length, take, Bool-cases, ==→eq,
  ==→ne, ne→==,
}
use mathlib.Core.Path.{subst}
use nolibc.Mem.{Mem, Bytes}
use nolibc.Mem.Laws.{Apart, Bytes-take, Bytes-frame}
use nolibc.Sys.World.{World}
use nolibc.Stdio.Printf.{Places, Callback, Printer, flush}
use nolibc.Stdio.Printf.Plain.{within}
use nolibc.Stdio.Printf.Pieces.{spaces}
use nolibc.Stdio.Printf.Handed.{emitted, counted, length-spaces, length-take}
use nolibc.Stdio.Printf.Sink.{Sink, Advances, HasSpace, pad_loop-Advances}

module _ {K : Type 0} {cb : Callback K} {scan : ℕ} (at : Places) (sink : Sink cb scan) where
  pads :
      (wide w : ℕ) (m : Mem) → (wide ≡ 0) ⊎ HasSpace at sink m → (wide - w ≡ 0) ⊎ HasSpace at sink m
  pads wide w m (inl z) = inl (omega (arith, z))
  pads wide w m (inr h) = inr h

  -- what `flush` does with the text `s` at `t`
  abbrev Flushed : Printer K → ℕ → ℕ → List ℕ → ℕ → ℕ → List ℕ → Type 0
  Flushed p t wide s n k out =
      (w' : World K) × (sink' : ℕ) × (room' : ℕ) × (n' : ℕ) × (flush cb at scan t (length s) wide p
        ≡ some (true, record p { world = w'; sink = sink'; room = room'; written = n' }))
      × Advances at sink p (record p { world = w'; sink = sink'; room = room'; written = n' }) out n
      × sink.able w' sink' k
      × (room' ≡ p.room - length s)
      × (n' < 2 ^ 32)

  flush_nothing :
      (t wide : ℕ) (s : List ℕ) (k : ℕ) (p : Printer K)
      → p.room ≡ 0
      → sink.able p.world p.sink k
      → Flushed p t wide s (length s) k []
  unfolding flush
  flush_nothing t wide s k p z able_ = (
    p.world,
    p.sink,
    p.room,
    (p.written + length s) % 2 ^ 32,
    rw z refl,
    record {
      printed = sym (append-nil (sink.output p.world p.sink));
      counts = omega arith;
      same_errno = refl;
      kept = λ a out own. refl;
    },
    able_,
    omega (arith, z),
    omega arith,
  )

  flush_text :
      (t wide : ℕ) (s : List ℕ) (k : ℕ) (p : Printer K)
      → p.room ≢ 0
      → sink.able p.world p.sink (wide - within (length s) p.room + (length (take p.room s) + k))
      → Bytes p.world.mem t s
      → Apart sink.lo sink.size t (length s)
      → length s < scan
      → length s < 2 ^ 63
      → t + length s < 2 ^ 64
      → (wide ≡ 0) ⊎ HasSpace at sink p.world.mem
      → 1 < scan
      → Flushed p t wide s
          (wide - within (length s) p.room + length s)
          k
          (spaces (wide - within (length s) p.room) ++ take p.room s)
  unfolding flush
  flush_text t wide s k p nz able_ b own f small high padded one =
      let w = within (length s) p.room in
      let cut = take p.room s in
      let pad = wide - w in
      let part : length cut ≡ w = length-take p.room s in
      let below : w ≤ length s = ground arith in
      let left : p.room - w ≡ p.room - length s = ground arith in
      let start = record p { room = p.room - w } in
      let needs : (pad ≡ 0) ⊎ HasSpace at sink p.world.mem = pads wide w p.world.mem padded in
      let (w1, sink1, n1, run, a, able1, same1) =
        pad_loop-Advances at sink pad (length cut + k) start able_ needs one in
      let bytes : Bytes w1.mem t cut =
        Bytes-frame p.world.mem w1.mem t cut (Bytes-take p.world.mem t p.room s b)
          (λ x lo hi. same1 x (ground (arith, own, part, below))) in
      let (w2, sink2, e, able2, out2, errno2, same2) =
        sink.takes w1 sink1 t cut k able1 bytes (ground (arith, own, part, below))
          (omega (arith, part, below)) (omega (arith, part, below)) (omega (arith, part, below)) in
      let taken : cb sink1 t w w1 ≡ some (w2, sink2, 0) =
        subst (λ n. cb sink1 t n w1 ≡ some (w2, sink2, 0)) part e in
      (
        w2,
        sink2,
        p.room - w,
        (n1 + length s) % 2 ^ 32,
        rw (ne→== p.room 0 nz) (rw run (rw taken refl)),
        record {
          printed =
              out2
              ∙ ap (λ x. x ++ cut) a.printed
              ∙ append_assoc (sink.output p.world p.sink) (spaces pad) cut;
          counts = omega (arith, a.counts);
          same_errno = errno2 ∙ a.same_errno;
          kept = λ x out own'. same2 x own' ∙ same1 x own';
        },
        able2,
        left,
        omega arith,
      )

  -- a text with its padding, under the limit
  pub flush-Advances :
      (t wide : ℕ) (s : List ℕ) (k : ℕ) (p : Printer K)
      → sink.able p.world p.sink (length (emitted p.room wide s) + k)
      → Bytes p.world.mem t s
      → Apart sink.lo sink.size t (length s)
      → length s < scan
      → length s < 2 ^ 63
      → t + length s < 2 ^ 64
      → (wide ≡ 0) ⊎ HasSpace at sink p.world.mem
      → 1 < scan
      → Flushed p t wide s (counted p.room wide s) k (emitted p.room wide s)
  flush-Advances t wide s k p able_ b own f small high padded one =
      elim (Bool-cases (p.room == 0)) [
        | inl z ↦
            let z' = ==→eq p.room 0 z in
            let e : emitted p.room wide s ≡ [] = rw z refl in
            let c : counted p.room wide s ≡ length s = rw z refl in
            let none_ : 0 + k ≡ k = omega arith in
            rw e (
              rw c (
                flush_nothing t wide s k p z' (
                  subst (λ x. sink.able p.world p.sink x) (ap (λ y. length y + k) e ∙ none_)
                    able_)))
        | inr nz ↦
            let pad = wide - within (length s) p.room in
            let e : emitted p.room wide s ≡ spaces pad ++ take p.room s = rw nz refl in
            let c : counted p.room wide s ≡ pad + length s = rw nz refl in
            let sizes : length (spaces pad ++ take p.room s) + k
                ≡ pad + (length (take p.room s) + k) =
              omega (arith, length-append (spaces pad) (take p.room s), length-spaces pad) in
            rw e (
              rw c (
                flush_text t wide s k p (==→ne p.room 0 nz)
                  (subst (λ x. sink.able p.world p.sink x) (ap (λ y. length y + k) e ∙ sizes) able_)
                  b own f small high padded one))
      ]
