-- ===== src/I8042/Driver/Interrupt.antt =====
-- A sequence of interrupts (crates/i8042/src/lib.rs, `Driver8042::interrupt`), on hardware that hands
-- over a script of bytes.
use snek_os.Prelude.{
  ℕ, Bool, true, false, Option, none, some, List, [], ◌∷◌, ◌==◌, if◌then◌else◌, ◌≡◌, refl,
}
use snek_os.I8042.Mouse.{reported}
use snek_os.I8042.Keyboard.{PcKeyboard}
use snek_os.I8042.Port
use snek_os.I8042.Port.{Port, Change}
use snek_os.I8042.Driver.{Impl, Driver, Irq, irq1, irq12, mask, reply, interrupt}

-- A byte for the driver, by the interrupt that announces it.
abbrev pub Event : Type 0
Event = Irq × ℕ

-- What the driver writes: a command, or a byte.
pub data Write : Type 0 where
  cmd : ℕ → Write
  byte : ℕ → Write

-- Hardware that announces and hands over a script of bytes, and keeps what is written to it, the last
-- write first.
pub record Scripted : Type 0 where
  pub script : List Event
  pub written : List Write

abbrev pub status : List Event → ℕ
status [] = 0
status ((irq, b) ∷ es) = mask irq

abbrev pub head_byte : List Event → ℕ
head_byte [] = 0
head_byte ((irq, b) ∷ es) = b

abbrev pub tail : List Event → List Event
tail [] = []
tail (e ∷ es) = es

abbrev pub scripted : Impl
scripted = record {
  Device = Scripted;
  write_cmd = λ s c. record s { written = cmd c ∷ s.written };
  read_status = λ s. (status s.script, s);
  write_data = λ s b. record s { written = byte b ∷ s.written };
  read_data = λ s. (head_byte s.script, record s { script = tail s.script });
}

-- The bytes of one of the interrupts.
abbrev pub bytes : Irq → List Event → List ℕ
bytes irq [] = []
bytes irq1 ((irq1, b) ∷ es) = b ∷ bytes irq1 es
bytes irq1 ((irq12, b) ∷ es) = bytes irq1 es
bytes irq12 ((irq1, b) ∷ es) = bytes irq12 es
bytes irq12 ((irq12, b) ∷ es) = b ∷ bytes irq12 es

-- What has been sent to the device behind a port, the last byte first: a byte behind the command 0xD4
-- goes to the second port, a byte alone to the first.
abbrev pub sent : Irq → List Write → List ℕ
sent irq [] = []
sent irq (cmd c ∷ ws) = sent irq ws
sent irq1 (byte b ∷ []) = b ∷ []
sent irq12 (byte b ∷ []) = []
sent irq1 (byte b ∷ byte b' ∷ ws) = b ∷ sent irq1 (byte b' ∷ ws)
sent irq12 (byte b ∷ byte b' ∷ ws) = sent irq12 (byte b' ∷ ws)
sent irq1 (byte b ∷ cmd c ∷ ws) = if c == 0xD4 then sent irq1 ws else b ∷ sent irq1 ws
sent irq12 (byte b ∷ cmd c ∷ ws) = if c == 0xD4 then b ∷ sent irq12 ws else sent irq12 ws

-- No command waits for its byte.
abbrev pub is_plain : List Write → Bool
is_plain (cmd c ∷ ws) = false
is_plain _ = true

-- The list with others put before it one after the other.
abbrev pub push_all {ℓ} : {A : Type ℓ} → List A → List A → List A
push_all [] acc = acc
push_all (x ∷ xs) acc = push_all xs (x ∷ acc)

push_all-reported {ℓ} :
    {A : Type ℓ} (o : Option A) (xs acc : List A)
    → push_all (reported o xs) acc ≡ push_all xs (reported o acc)
push_all-reported none xs acc = refl
push_all-reported (some x) xs acc = refl

abbrev write_reply : Irq → Option ℕ → List Write → List Write
write_reply irq none ws = ws
write_reply irq1 (some b) ws = byte b ∷ ws
write_reply irq12 (some b) ws = byte b ∷ cmd 0xD4 ∷ ws

reply-script :
    (irq : Irq) (o : Option ℕ) (s : Scripted)
    → reply scripted irq o s ≡ record { script = s.script; written = write_reply irq o s.written }
reply-script irq none s = refl
reply-script irq1 (some b) s = refl
reply-script irq12 (some b) s = refl

sent-irq1 :
    (o : Option ℕ) (ws : List Write)
    → is_plain ws ≡ true
    → (sent irq1 (write_reply irq1 o ws) ≡ reported o (sent irq1 ws))
      × (sent irq12 (write_reply irq1 o ws) ≡ sent irq12 ws)
      × (is_plain (write_reply irq1 o ws) ≡ true)
sent-irq1 none ws h = (refl, refl, h)
sent-irq1 (some b) [] h = (refl, refl, refl)
sent-irq1 (some b) (byte b' ∷ ws) h = (refl, refl, refl)
sent-irq1 (some b) (cmd c ∷ ws) h = cc

sent-irq12 :
    (o : Option ℕ) (ws : List Write)
    → is_plain ws ≡ true
    → (sent irq1 (write_reply irq12 o ws) ≡ sent irq1 ws)
      × (sent irq12 (write_reply irq12 o ws) ≡ reported o (sent irq12 ws))
      × (is_plain (write_reply irq12 o ws) ≡ true)
sent-irq12 none ws h = (refl, refl, h)
sent-irq12 (some b) ws h = (refl, refl, refl)

abbrev pub Loaded :
    {pc : PcKeyboard} → List Event → Port pc → Port pc → List Write → Driver pc scripted
Loaded es p1 p2 ws = record {
  device = record { script = es; written = ws };
  port1 = some p1;
  port2 = some p2;
}

module _ {pc : PcKeyboard} where
  -- One interrupt for each event of the script.
  unfoldable pub serve : List Event → Driver pc scripted → Driver pc scripted
  serve [] d = d
  serve ((irq, b) ∷ es) d = serve es (interrupt irq d).1

  interrupt-irq1 :
      (b : ℕ) (es : List Event) (p1 p2 : Port pc) (ws : List Write)
      → (interrupt irq1 (Loaded ((irq1, b) ∷ es) p1 p2 ws)).1
        ≡ Loaded es (Port.handle_data p1 b).0 p2 (write_reply irq1 (Port.handle_data p1 b).1 ws)
  unfolding interrupt
  interrupt-irq1 b es p1 p2 ws = rw reply-script

  interrupt-irq12 :
      (b : ℕ) (es : List Event) (p1 p2 : Port pc) (ws : List Write)
      → (interrupt irq12 (Loaded ((irq12, b) ∷ es) p1 p2 ws)).1
        ≡ Loaded es p1 (Port.handle_data p2 b).0 (write_reply irq12 (Port.handle_data p2 b).1 ws)
  unfolding interrupt
  interrupt-irq12 b es p1 p2 ws = rw reply-script

  -- What a driver holds once the script is served.
  pub record Served (es : List Event) (p1 p2 : Port pc) (ws : List Write) (d : Driver pc scripted)
      : Type 0 where
    pub first : d.port1 ≡ some (Port.feed p1 (bytes irq1 es)).0
    pub second : d.port2 ≡ some (Port.feed p2 (bytes irq12 es)).0
    pub sent_first :
        sent irq1 d.device.written ≡ push_all (Port.feed p1 (bytes irq1 es)).1 (sent irq1 ws)
    pub sent_second :
        sent irq12 d.device.written ≡ push_all (Port.feed p2 (bytes irq12 es)).1 (sent irq12 ws)
    pub all_read : d.device.script ≡ []

  -- A script of bytes is served by one interrupt for each byte, announced by either line in any order:
  -- each port ends where its own bytes alone lead it, has been sent its own replies alone, in order,
  -- those to the second port behind the command 0xD4, and the whole script is read. No command may be
  -- waiting for its byte at the start.
  pub serve-Served :
      (es : List Event) (p1 p2 : Port pc) (ws : List Write)
      → is_plain ws ≡ true
      → Served es p1 p2 ws (serve es (Loaded es p1 p2 ws))
  unfolding serve Port.feed
  serve-Served [] p1 p2 ws h = record {
    first = refl;
    second = refl;
    sent_first = refl;
    sent_second = refl;
    all_read = refl;
  }
  serve-Served ((irq1, b) ∷ es) p1 p2 ws h =
      let o : Option ℕ = (Port.handle_data p1 b).1 in
      let (own, other, plain) = sent-irq1 o ws h in
      let r = serve-Served es (Port.handle_data p1 b).0 p2 (write_reply irq1 o ws) plain in
      rw (interrupt-irq1 b es p1 p2 ws) (record {
        first = r.first;
        second = r.second;
        sent_first = rw (push_all-reported, ← own) r.sent_first;
        sent_second = rw (← other) r.sent_second;
        all_read = r.all_read;
      })
  serve-Served ((irq12, b) ∷ es) p1 p2 ws h =
      let o : Option ℕ = (Port.handle_data p2 b).1 in
      let (other, own, plain) = sent-irq12 o ws h in
      let r = serve-Served es p1 (Port.handle_data p2 b).0 (write_reply irq12 o ws) plain in
      rw (interrupt-irq12 b es p1 p2 ws) (record {
        first = r.first;
        second = r.second;
        sent_first = rw (← other) r.sent_first;
        sent_second = rw (push_all-reported, ← own) r.sent_second;
        all_read = r.all_read;
      })
