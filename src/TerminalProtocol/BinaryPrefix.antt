-- ===== src/TerminalProtocol/BinaryPrefix.antt =====
-- packages/shared/src/terminal.ts: `BinaryPrefix`, the first byte of each binary frame.
use Prim.Native.Nat.{ℕ}

abbrev pub input : ℕ
input = 0x00

abbrev pub resize : ℕ
resize = 0x01

abbrev pub refresh : ℕ
refresh = 0x02

abbrev pub flow_pause : ℕ
flow_pause = 0x03

abbrev pub flow_resume : ℕ
flow_resume = 0x04

abbrev pub output : ℕ
output = 0x10

abbrev pub exit : ℕ
exit = 0x11
