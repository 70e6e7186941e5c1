-- ===== src/Tests.antt =====
-- Runs on concrete inputs, and each result at an input that meets its conditions.
mod Errors
mod Worker
mod Queue
mod Client
mod Gsp
mod Flows
mod Payload
mod Mapping
mod Products
mod Upsert
mod Replies
mod Tax
mod Records
