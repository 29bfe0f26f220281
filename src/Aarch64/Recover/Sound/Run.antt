-- ===== src/Aarch64/Recover/Sound/Run.antt =====
-- crates/delink-aarch64/src/recover.rs, `recover`: the whole pass.
use delink.Prelude.Eq.{nat_eq}
