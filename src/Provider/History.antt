-- ===== src/Provider/History.antt =====
-- Histories of the calls of a provider that succeed, as pkg/provider/interface.go declares them, and
-- what a specification of one call says of a whole history. A history expands volumes only with the
-- expander that it is given, if it is given one.
use std.Path.{fun_ext}
use caa_csi_block_driver.Prelude.{ℤ, String, Option, some, ◌≡◌, refl, ◌∙◌, ap, List, [], ◌∷◌}
use caa_csi_block_driver.Result.{ok}
use caa_csi_block_driver.Provider.{VolumeInfo, BlockVolumeProvider, VolumeExpander}
use caa_csi_block_driver.Provider.Specification.{
  Op, create, delete, expand, Disks, specified, specified_all,
}

module _ {Cloud : Type 0} (p : BlockVolumeProvider Cloud)
    (expander : Option (VolumeExpander Cloud)) where
  pub data Acts : Cloud → Op → Cloud → Type 0 where
    creates :
        {c c' : Cloud} {v : String} {n : ℤ} {info : VolumeInfo}
        → p.create_volume v n c ≡ (ok info, c')
        → Acts c (create v n) c'
    deletes :
        {c c' : Cloud} {v : String} {u : Unit {0}}
        → p.delete_volume v c ≡ (ok u, c')
        → Acts c (delete v) c'
    expands :
        {c c' : Cloud} {v : String} {n : ℤ} {x : VolumeExpander Cloud} {u : Unit {0}}
        → expander ≡ some x
        → x.expand_volume v n c ≡ (ok u, c')
        → Acts c (expand v n) c'

  pub data History : Cloud → List Op → Cloud → Type 0 where
    start : {c : Cloud} → History c [] c
    then_op :
        {c c1 c' : Cloud} {op : Op} {ops : List Op}
        → Acts c op c1
        → History c1 ops c'
        → History c (op ∷ ops) c'

  -- If every call does to the sizes what the specification says, so does a history.
  pub sizes-History :
      (round_new round_grown : ℤ → ℤ) (name : String → String) (sizes : Cloud → Disks)
      → ((c c' : Cloud) (op : Op)
          → Acts c op c'
          → (w : String) → sizes c' w ≡ specified round_new round_grown name op (sizes c) w)
      → {c c' : Cloud} {ops : List Op} → History c ops c'
      → (w : String) → sizes c' w ≡ specified_all round_new round_grown name ops (sizes c) w
  unfolding specified_all
  sizes-History round_new round_grown name sizes meets start w = refl
  sizes-History round_new round_grown name sizes meets (then_op {c} {c1} {c'} {op} {ops} step rest)
        w =
      sizes-History round_new round_grown name sizes meets rest w
      ∙ ap (λ d. specified_all round_new round_grown name ops d w) (fun_ext (meets c c1 op step))
