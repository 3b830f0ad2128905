-- ===== src/Machine/Memory.antt =====
-- The accesses to memory of tms9995.ts: what an access leaves alone, and that a read returns what was
-- written.
use retro_cpu_emu.Shared.{
  ℕ, ◌+◌, ◌*◌, ◌/◌, ◌%◌, ◌^◌, ◌≡◌, refl, ◌∙◌, ap, arith, Bool, true, false, Option, none, some,
  ◌==◌,
}
use retro_cpu_emu.Shared.{subst, ◌<◌, bit_or}
use retro_cpu_emu.Shared.Bits.{or_fields}
use retro_cpu_emu.IoPorts.{Ports, tms9995_mem_read_io_byte, tms9995_mem_write_io_byte}
use retro_cpu_emu.IoMmap
use retro_cpu_emu.IoMmap.{is_io_addr}
use retro_cpu_emu.Machine.{
  Machine, finish_read, read_byte, finish_write, write_byte, read_word, write_word, even_addr,
  store,
}

-- The new state is the old one with another memory and other ports.
abbrev pub Frame : Machine → Machine → Type 0
Frame s s' = s' ≡ record s { memory = s'.memory; ports = s'.ports }

pub Frame-trans : (s₁ s₂ s₃ : Machine) → Frame s₁ s₂ → Frame s₂ s₃ → Frame s₁ s₃
Frame-trans s₁ s₂ s₃ p q =
    q ∙ ap (λ (s : Machine). record s { memory = s₃.memory; ports = s₃.ports }) p

finish_read-Frame :
    (a : ℕ) (io : Option ℕ) (p : Ports) (s : Machine)
    → Frame s (finish_read a io (record s { ports = p })).1
unfolding finish_read
finish_read-Frame a none p s = refl
finish_read-Frame a (some v) p s = refl

finish_write-Frame :
    (a v prev : ℕ) (done : Bool) (p : Ports) (s : Machine)
    → Frame s (finish_write a v prev done (record s { ports = p }))
unfolding finish_write
finish_write-Frame a v prev false p s = refl
finish_write-Frame a v prev true p s = refl

pub read_byte-Frame : (a : ℕ) (s : Machine) → Frame s (read_byte a s).1
unfolding read_byte
read_byte-Frame a s = finish_read-Frame _ _ _ s

pub write_byte-Frame : (a v : ℕ) (s : Machine) → Frame s (write_byte a v s).1
unfolding write_byte
write_byte-Frame a v s =
    let s₁ = (read_byte (a % 2 ^ 16) s).1 in
    let io = tms9995_mem_write_io_byte (a % 2 ^ 16) (v % 2 ^ 8) s₁.ports in
    Frame-trans s s₁ (write_byte a v s).1 (read_byte-Frame (a % 2 ^ 16) s)
      (finish_write-Frame (a % 2 ^ 16) (v % 2 ^ 8) (read_byte (a % 2 ^ 16) s).0 io.1 io.0 s₁)

pub read_word-Frame : (a : ℕ) (s : Machine) → Frame s (read_word a s).1
unfolding read_word
read_word-Frame a s =
    let s₁ = (read_byte (even_addr a) s).1 in
    let s₂ = (read_byte (even_addr a + 1) s₁).1 in
    Frame-trans s s₁ s₂ (read_byte-Frame (even_addr a) s) (read_byte-Frame (even_addr a + 1) s₁)

pub write_word-Frame : (a v : ℕ) (s : Machine) → Frame s (write_word a v s).1
unfolding write_word
write_word-Frame a v s =
    let hi = v % 2 ^ 16 / 2 ^ 8 in
    let lo = v % 2 ^ 16 % 2 ^ 8 in
    let s₁ = (write_byte (even_addr a) hi s).1 in
    Frame-trans s s₁ (write_byte (even_addr a + 1) lo s₁).1 (write_byte-Frame (even_addr a) hi s)
      (write_byte-Frame (even_addr a + 1) lo s₁)

finish_read-memory :
    (a : ℕ) (io : Option ℕ) (p : Ports) (s : Machine)
    → (finish_read a io (record s { ports = p })).1.memory ≡ s.memory
unfolding finish_read
finish_read-memory a none p s = refl
finish_read-memory a (some v) p s = refl

-- A read of a byte or a word leaves the memory.
pub read_byte-memory : (a : ℕ) (s : Machine) → (read_byte a s).1.memory ≡ s.memory
unfolding read_byte
read_byte-memory a s = finish_read-memory _ _ _ s

pub read_word-memory : (a : ℕ) (s : Machine) → (read_word a s).1.memory ≡ s.memory
unfolding read_word
read_word-memory a s = read_byte-memory _ (read_byte (even_addr a) s).1 ∙ read_byte-memory _ s

-- Outside the window of the memory-mapped IO.
read_io-none : (a : ℕ) (p : Ports) → is_io_addr a ≡ false → (tms9995_mem_read_io_byte a p).1 ≡ none
unfolding tms9995_mem_read_io_byte IoMmap.read_byte
read_io-none a p h = ground arith

write_io-none :
    (a v : ℕ) (p : Ports) → is_io_addr a ≡ false → (tms9995_mem_write_io_byte a v p).1 ≡ false
unfolding tms9995_mem_write_io_byte IoMmap.write_byte
write_io-none a v p h = ground arith

finish_read-value : (a : ℕ) (s : Machine) → (finish_read a none s).0 ≡ s.memory a % 2 ^ 8
unfolding finish_read
finish_read-value a s = refl

pub read_byte-value :
    (a : ℕ) (s : Machine)
    → is_io_addr (a % 2 ^ 16) ≡ false
    → (read_byte a s).0 ≡ s.memory (a % 2 ^ 16) % 2 ^ 8
unfolding read_byte
read_byte-value a s h = rw (read_io-none (a % 2 ^ 16) s.ports h) (finish_read-value _ _)

finish_write-memory :
    (a v prev : ℕ) (p : Ports) (s : Machine)
    → (finish_write a v prev false (record s { ports = p })).memory ≡ store s.memory a v
unfolding finish_write
finish_write-memory a v prev p s = refl

pub write_byte-memory :
    (a v : ℕ) (s : Machine)
    → is_io_addr (a % 2 ^ 16) ≡ false
    → (write_byte a v s).1.memory ≡ store s.memory (a % 2 ^ 16) (v % 2 ^ 8)
unfolding write_byte
write_byte-memory a v s h =
    let s₁ = (read_byte (a % 2 ^ 16) s).1 in
    let io = tms9995_mem_write_io_byte (a % 2 ^ 16) (v % 2 ^ 8) s₁.ports in
    rw (write_io-none (a % 2 ^ 16) (v % 2 ^ 8) s₁.ports h) (
      finish_write-memory (a % 2 ^ 16) (v % 2 ^ 8) (read_byte (a % 2 ^ 16) s).0 io.0 s₁
      ∙ ap (λ (f : ℕ → ℕ). store f (a % 2 ^ 16) (v % 2 ^ 8)) (read_byte-memory (a % 2 ^ 16) s))

-- The two bytes of a word, outside the window of the memory-mapped IO.
abbrev pub PlainWord : ℕ → Type 0
PlainWord a = is_io_addr (even_addr a) ≡ false

plain_pair : (a : ℕ) → PlainWord a → is_io_addr (even_addr a + 1) ≡ false
unfolding is_io_addr
plain_pair a h = ground arith

abbrev pub word_at : (ℕ → ℕ) → ℕ → ℕ
word_at memory a = memory a % 2 ^ 8 * 2 ^ 8 + memory (a + 1) % 2 ^ 8

read_byte-at :
    (e : ℕ) (s : Machine)
    → e < 2 ^ 16
    → is_io_addr e ≡ false
    → (read_byte e s).0 ≡ s.memory e % 2 ^ 8
read_byte-at e s lt h =
    let q : e % 2 ^ 16 ≡ e = omega arith in
    subst (λ (x : ℕ). (read_byte e s).0 ≡ s.memory x % 2 ^ 8) q (read_byte-value e s (rw q h))

write_byte-at :
    (e v : ℕ) (s : Machine)
    → e < 2 ^ 16
    → is_io_addr e ≡ false
    → (write_byte e v s).1.memory ≡ store s.memory e (v % 2 ^ 8)
write_byte-at e v s lt h =
    let q : e % 2 ^ 16 ≡ e = omega arith in
    subst (λ (x : ℕ). (write_byte e v s).1.memory ≡ store s.memory x (v % 2 ^ 8)) q
      (write_byte-memory e v s (rw q h))

join_bytes :
    (x y : ℕ) → bit_or (x % 2 ^ 8 * 2 ^ 8) (y % 2 ^ 8) % 2 ^ 16 ≡ x % 2 ^ 8 * 2 ^ 8 + y % 2 ^ 8
join_bytes x y = rw (or_fields 8 (x % 2 ^ 8) (y % 2 ^ 8) (omega arith)) (omega arith)

-- A word outside the window is read from its two bytes, the high byte first.
pub read_word-value :
    (a : ℕ) (s : Machine) → PlainWord a → (read_word a s).0 ≡ word_at s.memory (even_addr a)
unfolding read_word
read_word-value a s h =
    let s₁ = (read_byte (even_addr a) s).1 in
    rw
      (
        read_byte-at (even_addr a) s (omega arith) h,
        read_byte-at (even_addr a + 1) s₁ (omega arith) (plain_pair a h),
        read_byte-memory (even_addr a) s,
      )
      (join_bytes (s.memory (even_addr a)) (s.memory (even_addr a + 1)))

pub write_word-memory :
    (a v : ℕ) (s : Machine)
    → PlainWord a
    → (write_word a v s).1.memory
      ≡ store
          (store s.memory (even_addr a) (v % 2 ^ 16 / 2 ^ 8 % 2 ^ 8))
          (even_addr a + 1)
          (v % 2 ^ 16 % 2 ^ 8 % 2 ^ 8)
unfolding write_word
write_word-memory a v s h =
    let hi = v % 2 ^ 16 / 2 ^ 8 in
    let lo = v % 2 ^ 16 % 2 ^ 8 in
    let s₁ = (write_byte (even_addr a) hi s).1 in
    write_byte-at (even_addr a + 1) lo s₁ (omega arith) (plain_pair a h)
    ∙ ap (λ (f : ℕ → ℕ). store f (even_addr a + 1) (lo % 2 ^ 8))
        (write_byte-at (even_addr a) hi s (omega arith) h)

-- A word written outside the window is read back, to 16 bits, at either byte's address, whatever
-- the comparators do meanwhile.
pub read_word-write_word :
    (a v : ℕ) (s : Machine) → PlainWord a → (read_word a (write_word a v s).1).0 ≡ v % 2 ^ 16
read_word-write_word a v s h =
    rw (read_word-value a (write_word a v s).1 h, write_word-memory a v s h) (ground arith)

-- A write of a word outside the window leaves every other byte of memory.
write_word-elsewhere :
    (a v x : ℕ) (s : Machine)
    → PlainWord a
    → (x == even_addr a) ≡ false
    → (x == even_addr a + 1) ≡ false
    → (write_word a v s).1.memory x ≡ s.memory x
write_word-elsewhere a v x s h p q = rw (write_word-memory a v s h) (ground arith)
