-- ===== src/Smp/Register.antt =====
-- kern/lapic.c: the registers of the local APIC, as indexes of words.
use xv6_lab.Base.{ℕ, ◌/◌}

abbrev pub tpr : ℕ
tpr = 0x80 / 4

abbrev pub eoi : ℕ
eoi = 0xB0 / 4

abbrev pub svr : ℕ
svr = 0xF0 / 4

abbrev pub esr : ℕ
esr = 0x280 / 4

abbrev pub icrlo : ℕ
icrlo = 0x300 / 4

abbrev pub icrhi : ℕ
icrhi = 0x310 / 4

abbrev pub timer : ℕ
timer = 0x320 / 4

abbrev pub pcint : ℕ
pcint = 0x340 / 4

abbrev pub lint0 : ℕ
lint0 = 0x350 / 4

abbrev pub lint1 : ℕ
lint1 = 0x360 / 4

abbrev pub error : ℕ
error = 0x370 / 4

abbrev pub ticr : ℕ
ticr = 0x380 / 4

abbrev pub tdcr : ℕ
tdcr = 0x3E0 / 4
