-- ===== src/Tests.antt =====
-- Tests, and the theorems at concrete inputs. `LittleEndian` and `Vectors` give a working
-- borsh, and `Machine` a working runtime: they show that what is asked of the crates can be met.
mod LittleEndian
mod Vectors
mod Machine
mod Packages
mod Scenario
mod Client
mod Dsl
mod Ballot
mod Calls
mod Parts
mod Outcomes
mod Owners
mod Runs
mod Forged
mod Declared
mod Returns
mod Histories
mod Executions
