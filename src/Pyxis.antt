-- ===== src/Pyxis.antt =====
-- The synchronisation of the repositories, images and CVEs of Pyxis (pyxis/).
pub mod Api
pub mod Tags
pub mod Cache
pub mod Image
pub mod Repo
pub mod Profile
pub mod Repos
