-- ===== src/Crb/Hubs.antt =====
-- The numbers of the hubs and of the agents on the CRB, UNM_HW_*_CH_HUB_ADR and
-- UNM_HW_*_CRB_AGT_ADR of include/unm_inc.h.
use hp_nx_nic.Prelude.{ℕ}

abbrev pub h0_hub : ℕ
h0_hub = 5

abbrev pub h1_hub : ℕ
h1_hub = 14

abbrev pub h2_hub : ℕ
h2_hub = 3

abbrev pub h3_hub : ℕ
h3_hub = 1

abbrev pub h4_hub : ℕ
h4_hub = 6

abbrev pub h5_hub : ℕ
h5_hub = 7

abbrev pub h6_hub : ℕ
h6_hub = 8

abbrev pub ps_agt : ℕ
ps_agt = 0x73

abbrev pub mn_agt : ℕ
mn_agt = 0x15

abbrev pub ms_agt : ℕ
ms_agt = 0x25

abbrev pub sre_agt : ℕ
sre_agt = 0x50

abbrev pub niu_agt : ℕ
niu_agt = 0x31

abbrev pub qm_agt : ℕ
qm_agt = 0x66

abbrev pub sqg0_agt : ℕ
sqg0_agt = 0x60

abbrev pub sqg1_agt : ℕ
sqg1_agt = 0x61

abbrev pub sqg2_agt : ℕ
sqg2_agt = 0x62

abbrev pub sqg3_agt : ℕ
sqg3_agt = 0x63

abbrev pub i2q_agt : ℕ
i2q_agt = 0x20

abbrev pub tmr_agt : ℕ
tmr_agt = 0x17

abbrev pub romusb_agt : ℕ
romusb_agt = 0x21

abbrev pub pegn4_agt : ℕ
pegn4_agt = 0x4b

abbrev pub xdma_agt : ℕ
xdma_agt = 0x5

abbrev pub pegn0_agt : ℕ
pegn0_agt = 0x40

abbrev pub pegn1_agt : ℕ
pegn1_agt = 0x41

abbrev pub pegn2_agt : ℕ
pegn2_agt = 0x42

abbrev pub pegn3_agt : ℕ
pegn3_agt = 0x43

abbrev pub pegnd_agt : ℕ
pegnd_agt = 0x45

abbrev pub pegni_agt : ℕ
pegni_agt = 0x44

abbrev pub pegs0_agt : ℕ
pegs0_agt = 0x40

abbrev pub pegs1_agt : ℕ
pegs1_agt = 0x41

abbrev pub pegs2_agt : ℕ
pegs2_agt = 0x42

abbrev pub pegs3_agt : ℕ
pegs3_agt = 0x43

abbrev pub pegsi_agt : ℕ
pegsi_agt = 0x44

abbrev pub sn_agt : ℕ
sn_agt = 0x10

abbrev pub eg_agt : ℕ
eg_agt = 0x51

abbrev pub ncm_agt : ℕ
ncm_agt = 0x16

abbrev pub rpmx1_agt : ℕ
rpmx1_agt = 0x9

abbrev pub rpmx2_agt : ℕ
rpmx2_agt = 0xa

abbrev pub rpmx3_agt : ℕ
rpmx3_agt = 0xb

abbrev pub rpmx4_agt : ℕ
rpmx4_agt = 0xc

abbrev pub rpmx5_agt : ℕ
rpmx5_agt = 0xd

abbrev pub rpmx6_agt : ℕ
rpmx6_agt = 0xe

abbrev pub rpmx7_agt : ℕ
rpmx7_agt = 0xf

abbrev pub rpmx0_agt : ℕ
rpmx0_agt = 0x8

abbrev pub rpmx8_agt : ℕ
rpmx8_agt = 0x11

abbrev pub rpmx9_agt : ℕ
rpmx9_agt = 0x12

abbrev pub ocm0_agt : ℕ
ocm0_agt = 0x6

abbrev pub smb_agt : ℕ
smb_agt = 0x18

abbrev pub i2c0_agt : ℕ
i2c0_agt = 0x19

abbrev pub i2c1_agt : ℕ
i2c1_agt = 0x29

abbrev pub pegnc_agt : ℕ
pegnc_agt = 0x46
