-- ===== src/Queue/Simulation/Reports.antt =====
-- What `start_list_time` prints, a block for each hundred requests that left the first queue.
use ics7_os.Common.{
  ℕ, ◌+◌, ◌*◌, ◌%◌, ◌≤◌, ◌<◌, ◌≡◌, refl, inl, inr, Bool, Bool-cases, true, false, ◌&&◌, not, some,
  List, [], ◌∷◌, ◌++◌, length, length-append, arith, ◌==◌,
}
use ics7_os.Common.Options.{◌>>=◌}
use ics7_os.Queue.{Allocator}
use ics7_os.Queue.Fifo.{list_size-length}
use ics7_os.Queue.Simulation.Shape.{Plenty, Good}
use ics7_os.Queue.Times.{Arithmetic, Intervals, stay}
use ics7_os.Queue.Simulation.{Report, State, more, report}

module _ {ℓ} {D : Type ℓ} (a : Allocator) where
  -- The blocks are at 100, 200 and so on above `from`, and each states how many requests came:
  -- those that left, those in the queue, and one for each time there was no memory.
  abbrev pub Sound : ℕ → List (Report D) → Type 0
  Sound from [] = Unit
  Sound from (r ∷ rs) =
      (r.n_quit ≡ from + 100)
      × (r.n_quit + r.len_1 ≤ r.count)
      × (Plenty a → r.n_quit + r.len_1 ≡ r.count)
      × Sound (from + 100) rs

  Sound-snoc :
      (from : ℕ) (rs : List (Report D)) (r : Report D)
      → Sound from rs
      → r.n_quit ≡ from + 100 * length rs + 100
      → r.n_quit + r.len_1 ≤ r.count
      → (Plenty a → r.n_quit + r.len_1 ≡ r.count)
      → Sound from (rs ++ r ∷ [])
  Sound-snoc from [] r h at le eq = (omega (arith, at), le, eq, tt)
  Sound-snoc from (q ∷ rs) r (q_at, q_le, q_eq, h) at le eq =
      (q_at, q_le, q_eq, Sound-snoc (from + 100) rs r h (omega (arith, at)) le eq)

  -- `i` is the number at the last block.
  pub record Tally (i n_quit : ℕ) (printed : List (Report D)) : Type 0 where
    pub hundreds : i ≡ 100 * length printed
    pub low : i ≤ n_quit
    pub high : n_quit < i + 100
    pub sound : Sound 0 printed

module _ {ℓ} {D : Type ℓ} (f : Arithmetic D) (rand : ℕ → ℕ) (a : Allocator) (flag : Bool)
    (ts : Intervals D) (k : ℕ) where
  due :
      (n i m : ℕ)
      → i ≡ 100 * m
      → i ≤ n
      → n ≤ i + 100
      → (n % 100 == 0 && not (i == n)) ≡ true
      → n ≡ i + 100
  due n i m hundreds low high e = ground (arith, e)

  not_due :
      (n i m : ℕ) → i ≡ 100 * m → n ≤ i + 100 → (n % 100 == 0 && not (i == n)) ≡ false → n < i + 100
  not_due n i m hundreds high e = ground (arith, e)

  -- With fuel, the block is printed when it is due, and the queues stay as they are.
  pub report-Tally :
      (b c : ℕ) (s : State D)
      → b < k
      → c < k
      → Good a b c s.lines
      → s.i ≡ 100 * length s.printed
      → s.i ≤ s.lines.one.n_quit
      → s.lines.one.n_quit ≤ s.i + 100
      → Sound a 0 s.printed
      → (t : State D) × (report f rand a flag ts k s ≡ some t)
        × (t.lines ≡ s.lines)
        × Tally a t.i t.lines.one.n_quit t.printed
  unfolding report
  report-Tally b c s room room_2 g hundreds low high sound =
      let n = s.lines.one.n_quit in
      let len =
        list_size-length k s.lines.heap g.ps g.shape.nodes
          (omega (arith, g.one.counted, g.one.bounded)) in
      let len_2 =
        list_size-length k s.lines.heap g.qs g.shape.nodes_2
          (omega (arith, g.two.counted, g.two.bounded)) in
      elim (Bool-cases (n % 100 == 0 && not (s.i == n))) [
        | inl e ↦
            let at : n ≡ s.i + 100 = due n s.i (length s.printed) hundreds low high e in
            let exact : Plenty a → n + length g.ps ≡ s.lines.one.count = g.one.exact in
            let av_1 = more f rand a flag ts k s.av_len (length g.ps) n in
            let av_2 = more f rand a flag ts k av_1 (length g.qs) s.lines.two.n_quit in
            let r : Report D = record {
              time = s.clocks.time;
              av_len_1 = av_1;
              len_1 = length g.ps;
              av_len_2 = av_2;
              len_2 = length g.qs;
              count = s.lines.one.count;
              n_quit = n;
              stay_1 = stay f s.clocks.time n;
              stay_2 = stay f s.clocks.time s.lines.two.n_quit;
              t_wait = s.clocks.t_wait;
              t_work = s.clocks.t_work;
            } in
            (
              record s { i = n; av_len = av_2; printed = s.printed ++ r ∷ [] },
              rw (e, report) (rw (g.one.starts, g.two.starts) (rw (len, len_2, ◌>>=◌))),
              refl,
              record {
                hundreds = omega (arith, at, hundreds, length-append s.printed (r ∷ []));
                low = omega arith;
                high = omega arith;
                sound =
                    Sound-snoc a 0 s.printed r sound (omega (arith, at, hundreds)) g.one.counted
                      exact;
              },
            )
        | inr e ↦ (
          s,
          rw (e, report),
          refl,
          record {
            hundreds = hundreds;
            low = low;
            high = not_due n s.i (length s.printed) hundreds high e;
            sound = sound;
          },
        )
      ]
