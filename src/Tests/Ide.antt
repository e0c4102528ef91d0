-- ===== src/Tests/Ide.antt =====
-- A controller of a disk, which serves requests.
use master_os.Base.{
  ℕ, zero, suc, ◌+◌, ◌-◌, ◌*◌, ◌%◌, ◌<◌, ◌≡◌, ◌≢◌, refl, arith, Bool, true, false, not, ◌&&◌, ◌==◌,
  if◌then◌else◌, get16, bit_and, Bytes,
}
use mathlib.Core.Path.{fun_ext}
use master_os.Ata.{Controller}
use master_os.Ata.Serving.{Registers, Position, started, advanced, put_word, IsServing, IsStoring}

-- A controller that is busy once after a command.
pub record Ide : Type 0 where
  pub registers : Registers
  pub position : Position
  pub busy : Bool
  pub stored : ℕ → ℕ → Bytes

abbrev ide_status : Ide → ℕ
ide_status s = if s.busy then 0x80 else if s.position.left == 0 then 0x50 else 0x58

abbrev ide_disk : Ide → ℕ → ℕ → Bytes
ide_disk s drive sector i = s.stored drive sector i % 256

abbrev write_register : ℕ → ℕ → Registers → Registers
write_register port v r =
    if port == 0x1F6
    then record r { head = v }
    else if port == 0x1F2
    then record r { sectors = v }
    else if port == 0x1F3
    then record r { low = v }
    else if port == 0x1F4
    then record r { mid = v }
    else if port == 0x1F5
    then record r { high = v }
    else r

-- Any command but a flush starts a transfer.
abbrev ide_write : ℕ → ℕ → Ide → Ide
ide_write port v s = record {
  registers = write_register port v s.registers;
  position = if port == 0x1F7 && not (v == 0xE7) then started s.registers else s.position;
  busy = if port == 0x1F7 then true else s.busy;
  stored = s.stored;
}

abbrev pub ide : Controller
ide = record {
  State = Ide;
  in_port_b = λ port s. (ide_status s, record s { busy = false });
  in_port_w = λ port s. (
    get16 (ide_disk s s.position.drive s.position.sector) (s.position.word * 2),
    record s { position = advanced s.position },
  );
  out_port_b = ide_write;
  out_port_w = λ port v s. record s {
    position = advanced s.position;
    stored = put_word s.position v (ide_disk s);
  };
}

abbrev busy_rounds : Bool → ℕ
busy_rounds b = if b then 1 else 0

ready_bit :
    (b : Bool) (left : ℕ)
    → busy_rounds b ≡ 0
    → (bit_and (if b then 0x80 else if left == 0 then 0x50 else 0x58) 0x80 == 0) ≡ true
ready_bit true left e = absurd (omega (arith, e))
ready_bit false zero e = refl
ready_bit false (suc n) e = let more : (suc n == 0) ≡ false = ground arith in rw more refl

busy_bit :
    (b : Bool) (left : ℕ)
    → busy_rounds b ≢ 0
    → (bit_and (if b then 0x80 else if left == 0 then 0x50 else 0x58) 0x80 == 0) ≡ false
busy_bit true left ne = refl
busy_bit false left ne = absurd (ne refl)

error_bit :
    (b : Bool) (left : ℕ)
    → (bit_and (if b then 0x80 else if left == 0 then 0x50 else 0x58) 0x01 == 0) ≡ true
error_bit true left = refl
error_bit false zero = refl
error_bit false (suc n) = let more : (suc n == 0) ≡ false = ground arith in rw more refl

request_bit :
    (b : Bool) (left : ℕ)
    → busy_rounds b ≡ 0
    → left ≢ 0
    → (bit_and (if b then 0x80 else if left == 0 then 0x50 else 0x58) 0x08 == 0) ≡ false
request_bit true left e ne = absurd (omega (arith, e))
request_bit false zero e ne = absurd (ne refl)
request_bit false (suc n) e ne = let more : (suc n == 0) ≡ false = ground arith in rw more refl

few_rounds : (b : Bool) → busy_rounds b < 100000
few_rounds true = omega arith
few_rounds false = omega arith

less_busy : (b : Bool) → 0 ≡ busy_rounds b - 1
less_busy true = refl
less_busy false = refl

pub ide-IsServing : IsServing ide
ide-IsServing = record {
  registers = λ s. s.registers;
  position = λ s. s.position;
  disk = ide_disk;
  busy = λ s. busy_rounds s.busy;
  bytes = λ s drive sector i. omega arith;
  patient = λ s. few_rounds s.busy;
  status_ready = λ s e. ready_bit s.busy s.position.left e;
  status_busy = λ s ne. busy_bit s.busy s.position.left ne;
  status_waits = λ s. less_busy s.busy;
  status_position = λ s. refl;
  status_disk = λ s. refl;
  no_error = λ s e. error_bit s.busy s.position.left;
  asks = λ s e ne. request_bit s.busy s.position.left e ne;
  sets_head = λ v s. refl;
  sets_features = λ v s. refl;
  sets_sectors = λ v s. refl;
  sets_low = λ v s. refl;
  sets_mid = λ v s. refl;
  sets_high = λ v s. refl;
  starts = λ s. refl;
  register_disk = λ port v s lt. refl;
  command_disk = λ s. refl;
  gives_word = λ s e ne. refl;
  moves_on = λ s e ne. refl;
  stays_ready = λ s e ne. e;
  word_disk = λ s. refl;
}

below_byte :
    (p : Position) (v : ℕ) (disk : ℕ → ℕ → Bytes) (d l i : ℕ)
    → disk d l i < 256
    → put_word p v disk d l i % 256 ≡ put_word p v disk d l i
below_byte p v disk d l i lt = ground arith

pub ide-IsStoring : IsStoring ide ide-IsServing
unfolding ide-IsServing
ide-IsStoring = record {
  starts_write = λ s. refl;
  write_disk = λ s. refl;
  puts_word = λ v s e ne.
      fun_ext
        λ d. fun_ext λ l. fun_ext λ i. below_byte s.position v (ide_disk s) d l i (omega arith);
  puts_on = λ v s e ne. refl;
  puts_ready = λ v s e ne. e;
  flush_disk = λ s e. refl;
}

abbrev pub ide_idle : Ide
ide_idle = record {
  registers = record { head = 0; sectors = 0; low = 0; mid = 0; high = 0 };
  position = record { drive = 0; sector = 0; word = 0; left = 0 };
  busy = true;
  stored = λ drive sector i. drive + sector + i;
}
