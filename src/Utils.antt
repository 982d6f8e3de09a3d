-- ===== src/Utils.antt =====
-- packages/utils: the helpers that the services share.
pub mod Amounts
