-- ===== src/Kernel/Command.antt =====
-- The commands of the shell, command/command.cpp: what they print and do is a list of outputs. What
-- they ask other parts for stands in a record: the clock and the memory counts from Clock and Buddy,
-- the words that CPUID and the configuration space give, and the network card.
pub mod Replies
pub mod Dispatch
pub mod Debug
mod Render
mod Tests
use orionis_os.Base.{ℕ, Bool, List}
use orionis_os.Kernel.Buddy.{Buddy}

-- Something printed, in a colour, or done to the machine.
pub data Output : Type 0 where
  tty_print : List ℕ → ℕ → Output
  print_hex : ℕ → ℕ → Output
  print_dec : ℕ → ℕ → Output
  tty_clear : Output
  -- `outw` and `outb`: the port, then the value.
  outw : ℕ → ℕ → Output
  outb : ℕ → ℕ → Output
  -- `int $3`.
  breakpoint : Output
  -- A wait for the keyboard controller, and a stop for good.
  wait : Output
  hlt : Output
  -- A packet that the network card is given to send.
  send : List ℕ → Output

pub record Cpu : Type 0 where
  pub vendor : List ℕ
  pub brand : List ℕ
  pub ecx : ℕ
  pub edx : ℕ
  pub l1 : ℕ
  pub l2 : ℕ
  pub l3 : ℕ

-- What the debug mode shows of the terminal and of the buffer.
pub record View : Type 0 where
  pub cursor_x : ℕ
  pub cursor_y : ℕ
  pub bg_color : ℕ
  pub address : ℕ

pub record World : Type 0 where
  pub cmos : ℕ → ℕ
  pub memory : Buddy
  pub cpu : Cpu
  pub config : ℕ → ℕ
  pub mac : List ℕ
  pub can_send : List ℕ → Bool
  pub view : View
