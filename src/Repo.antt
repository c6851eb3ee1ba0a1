-- ===== src/Repo.antt =====
-- core/src/repo: the repositories. A proxy repository is modelled over the lookups of its members.
pub mod Proxy
