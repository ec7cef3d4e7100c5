-- ===== src/Crb/Agents.antt =====
-- The internal addresses of the agents on the CRB: UNM_HW_CRB_HUB_AGT_ADR_* of include/unm_inc.h,
-- a hub's number above the seven bits of an agent's, and crb_hub_agt of driver/unm_nic_hw.c.
use Prim.Native.Nat.{bit_or}
use hp_nx_nic.Prelude.{ℕ, List, [], ◌∷◌, ◌*◌, ◌^◌}
use hp_nx_nic.Crb.Hubs.{
  h1_hub, h0_hub, h3_hub, h2_hub, h6_hub, h4_hub, h5_hub, ps_agt, mn_agt, ms_agt, sre_agt, niu_agt,
  qm_agt, sqg0_agt, sqg1_agt, sqg2_agt, sqg3_agt, i2q_agt, tmr_agt, romusb_agt, pegn4_agt, xdma_agt,
  pegn0_agt, pegn1_agt, pegn2_agt, pegn3_agt, pegnd_agt, pegni_agt, pegs0_agt, pegs1_agt, pegs2_agt,
  pegs3_agt, pegsi_agt, sn_agt, eg_agt, ncm_agt, rpmx1_agt, rpmx2_agt, rpmx3_agt, rpmx4_agt,
  rpmx5_agt, rpmx6_agt, rpmx7_agt, rpmx0_agt, rpmx8_agt, rpmx9_agt, ocm0_agt, smb_agt, i2c0_agt,
  i2c1_agt, pegnc_agt,
}

abbrev hub_agt : ℕ → ℕ → ℕ
hub_agt hub agt = bit_or (hub * 2 ^ 7) agt

abbrev adr_ps : ℕ
adr_ps = hub_agt h1_hub ps_agt

abbrev adr_mn : ℕ
adr_mn = hub_agt h0_hub mn_agt

abbrev adr_ms : ℕ
adr_ms = hub_agt h0_hub ms_agt

abbrev adr_sre : ℕ
adr_sre = hub_agt h3_hub sre_agt

abbrev adr_niu : ℕ
adr_niu = hub_agt h2_hub niu_agt

abbrev adr_qmn : ℕ
adr_qmn = hub_agt h3_hub qm_agt

abbrev adr_sqn0 : ℕ
adr_sqn0 = hub_agt h3_hub sqg0_agt

abbrev adr_sqn1 : ℕ
adr_sqn1 = hub_agt h3_hub sqg1_agt

abbrev adr_sqn2 : ℕ
adr_sqn2 = hub_agt h3_hub sqg2_agt

abbrev adr_sqn3 : ℕ
adr_sqn3 = hub_agt h3_hub sqg3_agt

abbrev adr_i2q : ℕ
adr_i2q = hub_agt h6_hub i2q_agt

abbrev adr_timr : ℕ
adr_timr = hub_agt h6_hub tmr_agt

abbrev adr_romusb : ℕ
adr_romusb = hub_agt h6_hub romusb_agt

abbrev adr_pgn4 : ℕ
adr_pgn4 = hub_agt h4_hub pegn4_agt

abbrev adr_xdma : ℕ
adr_xdma = hub_agt h6_hub xdma_agt

abbrev adr_pgn0 : ℕ
adr_pgn0 = hub_agt h4_hub pegn0_agt

abbrev adr_pgn1 : ℕ
adr_pgn1 = hub_agt h4_hub pegn1_agt

abbrev adr_pgn2 : ℕ
adr_pgn2 = hub_agt h4_hub pegn2_agt

abbrev adr_pgn3 : ℕ
adr_pgn3 = hub_agt h4_hub pegn3_agt

abbrev adr_pgnd : ℕ
adr_pgnd = hub_agt h4_hub pegnd_agt

abbrev adr_pgni : ℕ
adr_pgni = hub_agt h4_hub pegni_agt

abbrev adr_pgs0 : ℕ
adr_pgs0 = hub_agt h5_hub pegs0_agt

abbrev adr_pgs1 : ℕ
adr_pgs1 = hub_agt h5_hub pegs1_agt

abbrev adr_pgs2 : ℕ
adr_pgs2 = hub_agt h5_hub pegs2_agt

abbrev adr_pgs3 : ℕ
adr_pgs3 = hub_agt h5_hub pegs3_agt

abbrev adr_pgsi : ℕ
adr_pgsi = hub_agt h5_hub pegsi_agt

abbrev adr_sn : ℕ
adr_sn = hub_agt h6_hub sn_agt

abbrev adr_eg : ℕ
adr_eg = hub_agt h3_hub eg_agt

abbrev adr_cam : ℕ
adr_cam = hub_agt h6_hub ncm_agt

abbrev adr_rpmx1 : ℕ
adr_rpmx1 = hub_agt h3_hub rpmx1_agt

abbrev adr_rpmx2 : ℕ
adr_rpmx2 = hub_agt h1_hub rpmx2_agt

abbrev adr_rpmx3 : ℕ
adr_rpmx3 = hub_agt h1_hub rpmx3_agt

abbrev adr_rpmx4 : ℕ
adr_rpmx4 = hub_agt h1_hub rpmx4_agt

abbrev adr_rpmx5 : ℕ
adr_rpmx5 = hub_agt h3_hub rpmx5_agt

abbrev adr_rpmx6 : ℕ
adr_rpmx6 = hub_agt h3_hub rpmx6_agt

abbrev adr_rpmx7 : ℕ
adr_rpmx7 = hub_agt h1_hub rpmx7_agt

abbrev adr_rpmx0 : ℕ
adr_rpmx0 = hub_agt h3_hub rpmx0_agt

abbrev adr_rpmx8 : ℕ
adr_rpmx8 = hub_agt h3_hub rpmx8_agt

abbrev adr_rpmx9 : ℕ
adr_rpmx9 = hub_agt h1_hub rpmx9_agt

abbrev adr_ocm0 : ℕ
adr_ocm0 = hub_agt h6_hub ocm0_agt

abbrev adr_smb : ℕ
adr_smb = hub_agt h1_hub smb_agt

abbrev adr_i2c0 : ℕ
adr_i2c0 = hub_agt h2_hub i2c0_agt

abbrev adr_i2c1 : ℕ
adr_i2c1 = hub_agt h2_hub i2c1_agt

abbrev adr_pgnc : ℕ
adr_pgnc = hub_agt h4_hub pegnc_agt

unfoldable pub crb_hub_agt : List ℕ
crb_hub_agt =
    0 ∷ adr_ps ∷ adr_mn ∷ adr_ms ∷ 0 ∷ adr_sre ∷ adr_niu ∷ adr_qmn ∷ adr_sqn0 ∷ adr_sqn1 ∷ adr_sqn2
    ∷ adr_sqn3 ∷ adr_i2q ∷ adr_timr ∷ adr_romusb ∷ adr_pgn4 ∷ adr_xdma ∷ adr_pgn0 ∷ adr_pgn1
    ∷ adr_pgn2 ∷ adr_pgn3 ∷ adr_pgnd ∷ adr_pgni ∷ adr_pgs0 ∷ adr_pgs1 ∷ adr_pgs2 ∷ adr_pgs3 ∷ 0
    ∷ adr_pgsi ∷ adr_sn ∷ 0 ∷ adr_eg ∷ 0 ∷ adr_ps ∷ adr_cam ∷ 0 ∷ 0 ∷ 0 ∷ 0 ∷ 0 ∷ adr_timr ∷ 0
    ∷ adr_rpmx1 ∷ adr_rpmx2 ∷ adr_rpmx3 ∷ adr_rpmx4 ∷ adr_rpmx5 ∷ adr_rpmx6 ∷ adr_rpmx7 ∷ adr_xdma
    ∷ adr_i2q ∷ adr_romusb ∷ 0 ∷ adr_rpmx0 ∷ adr_rpmx8 ∷ adr_rpmx9 ∷ adr_ocm0 ∷ 0 ∷ adr_smb
    ∷ adr_i2c0 ∷ adr_i2c1 ∷ 0 ∷ adr_pgnc ∷ 0 ∷ []
