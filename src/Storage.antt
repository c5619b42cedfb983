-- ===== src/Storage.antt =====
-- The object stores of pkg/infrastructure: MinIO and Cloudinary.
pub mod Minio
pub mod Cloudinary
pub mod Names
mod Tests
