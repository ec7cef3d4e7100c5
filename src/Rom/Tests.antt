-- ===== src/Rom/Tests.antt =====
-- A card that is ready at once, and two versions.
use hp_nx_nic.Prelude.{ℕ, []}
use hp_nx_nic.Card.{Register, sem2_lock, romusb_glb_status, romusb_rom_rdata, Responder}
use hp_nx_nic.Rom.{rom_fast_read}
use hp_nx_nic.Rom.FastRead.{Ends, rom_fast_read-Ends}

abbrev answer : Register → ℕ
answer sem2_lock = 1
answer romusb_glb_status = 2
answer romusb_rom_rdata = 0x12345678
answer _ = 0

abbrev ready : Responder
ready = λ t r. answer r

rom_fast_read-Ends_example :
    Ends ready 64 50000 [] (rom_fast_read ready 50000 64 []).0 (rom_fast_read ready 50000 64 []).1
rom_fast_read-Ends_example = rom_fast_read-Ends ready 64 50000 []
