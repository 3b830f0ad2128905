-- ===== src/IoBoard/Sessions.antt =====
-- The sessions of dma.ts.
use retro_cpu_emu.Shared.{ℕ, ◌%◌, ◌^◌, ◌≡◌, refl, Bool, true, false, List, [], ◌∷◌}
use retro_cpu_emu.IoBoard.Dma.{
  Dma, Poll, request_bus, give_up, wait_run, mirror, polled, transferred, begin_session,
  end_session, write_words, write_bytes,
}

-- No session is open: nothing is driven, and the CPU may run.
pub record Closed (d : Dma) : Type 0 where
  pub busy : d.busy ≡ false
  pub hlt : d.hlt ≡ false
  pub halt : d.bus.halt ≡ false
  pub dma_ena : d.bus.dma_ena ≡ false
  pub a_enable : d.bus.a_enable ≡ false
  pub d_enable : d.bus.d_enable ≡ false

end_session-Closed : (r : Bool) (d : Dma) → Closed (end_session r d)
unfolding end_session
end_session-Closed r d = record {
  busy = refl;
  hlt = refl;
  halt = refl;
  dma_ena = refl;
  a_enable = refl;
  d_enable = refl;
}

-- The session did not begin: it is closed and the memory is the one before.
record GaveUp (d d' : Dma) : Type 0 where
  closed : Closed d'
  memory : d'.memory ≡ d.memory

-- While it waits, the session drives neither enable.
record Silent (d : Dma) : Type 0 where
  address : d.bus.a_enable ≡ false
  content : d.bus.d_enable ≡ false

give_up-GaveUp : (r : Bool) (d : Dma) → Silent d → GaveUp d (give_up r d)
unfolding give_up
give_up-GaveUp r d h = record {
  closed = record {
    busy = refl;
    hlt = refl;
    halt = refl;
    dma_ena = refl;
    a_enable = h.address;
    d_enable = h.content;
  };
  memory = refl;
}

polled-GaveUp :
    (running late : Bool) (rest : Dma × Bool) (d : Dma)
    → Silent d
    → (rest.1 ≡ false → GaveUp d rest.0)
    → (polled running late rest d).1 ≡ false
    → GaveUp d (polled running late rest d).0
polled-GaveUp false late rest d h step e = absurd (cc)
polled-GaveUp true true rest d h step e = give_up-GaveUp true d h
polled-GaveUp true false rest d h step e = step e

-- A wait that ends without the bus ends closed.
wait_run-GaveUp :
    (polls : List Poll) (d : Dma)
    → Silent d
    → (wait_run polls d).1 ≡ false
    → GaveUp d (wait_run polls d).0
unfolding wait_run
wait_run-GaveUp [] d h e = absurd (cc)
wait_run-GaveUp (p ∷ polls) d h e =
    polled-GaveUp p.running p.late (wait_run polls (mirror p.running d)) d h
      (λ later. kept (
        wait_run-GaveUp polls (mirror p.running d)
          (record { address = h.address; content = h.content }) later))
      e
  where
    kept : {d' : Dma} → GaveUp (mirror p.running d) d' → GaveUp d d'
    kept r = record { closed = r.closed; memory = r.memory }

transferred-GaveUp :
    (addr : ℕ) (bytes : List ℕ) (running : Bool) (r : Dma × Bool) (d : Dma)
    → (r.1 ≡ false → GaveUp d r.0)
    → Closed (transferred addr bytes running r).0
      × ((transferred addr bytes running r).1 ≡ false
          → (transferred addr bytes running r).0.memory ≡ d.memory)
transferred-GaveUp addr bytes running (d', false) d gave =
    ((gave refl).closed, λ e. (gave e).memory)
transferred-GaveUp addr bytes running (d', true) d gave =
    (end_session-Closed running (write_words addr bytes d'), λ e. absurd (cc))

-- However long the wait, a transfer that has returned or thrown has closed its session: HLT, HALT,
-- DMA_ENA, both enables and the busy flag are off, and the one that has thrown, because RUN did not
-- fall in time, has written nothing.
pub write_bytes-Closed :
    (polls : List Poll) (running : Bool) (addr : ℕ) (bytes : List ℕ) (d : Dma)
    → Closed (write_bytes polls running addr bytes d).0
      × ((write_bytes polls running addr bytes d).1 ≡ false
          → (write_bytes polls running addr bytes d).0.memory ≡ d.memory)
unfolding write_bytes begin_session request_bus
write_bytes-Closed polls running addr bytes d =
    transferred-GaveUp (addr % 2 ^ 32) bytes running (begin_session polls d) d begins
  where
    begins : (begin_session polls d).1 ≡ false → GaveUp d (begin_session polls d).0
    begins e =
        let r =
          wait_run-GaveUp polls (request_bus d) (record { address = refl; content = refl }) e in
        record { closed = r.closed; memory = r.memory }
