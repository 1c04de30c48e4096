-- ===== src/Examples.antt =====
-- The theorems' runs on concrete inputs, one module for each group of components.
mod Members
mod Posts
mod Addresses
mod Limits
mod Lookups
mod Files
mod Texts
mod Activities
mod Queue
mod Uploads
mod Logins
